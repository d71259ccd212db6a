-- ===== src/Auth.antt =====
-- authentication.py: the REST API, the login and the credentials.
pub mod Network
pub mod Config
pub mod Post
pub mod Retries
pub mod Api
pub mod Key
pub mod Login
pub mod Authenticator
pub mod Signing
