-- ===== src/Auth/Config.antt =====
-- `RestConfiguration` and `create_rest_config` of authentication.py; the session is that of `Libraries`.
use client_py.Prelude.{String, [], ◌∷◌, str_eq, if◌then◌else◌, ◌≡◌, refl}
use client_py.Dict
use client_py.Util.Text.{join, lower}
use client_py.Util.Countries.{get_continent_url_postfix, get_ecovacs_country, country_china}

pub record RestConfiguration : Type 0 where
  pub device_id : String
  pub country : String
  pub portal_url : String
  pub login_url : String
  pub auth_code_url : String

-- `override_rest_url`: `None` and the empty text are the text "".
unfoldable pub create_rest_config : String → String → String → RestConfiguration
create_rest_config device_id alpha_2_country override_rest_url =
    let country = get_ecovacs_country alpha_2_country in
    let country_url = lower country in
    let tld = if str_eq alpha_2_country country_china then country_url else "com" in
    if str_eq override_rest_url ""
    then record {
      device_id = device_id;
      country = country;
      portal_url =
          join ("https://portal" ∷ get_continent_url_postfix alpha_2_country ∷ ".ecouser.net" ∷ []);
      login_url = join ("https://gl-" ∷ country_url ∷ "-api.ecovacs." ∷ tld ∷ []);
      auth_code_url = join ("https://gl-" ∷ country_url ∷ "-openapi.ecovacs." ∷ tld ∷ []);
    }
    else record {
      device_id = device_id;
      country = country;
      portal_url = override_rest_url;
      login_url = override_rest_url;
      auth_code_url = override_rest_url;
    }

create_rest_config-runs :
    (create_rest_config "d" "GB" "").login_url ≡ "https://gl-uk-api.ecovacs.com"
unfolding create_rest_config join lower get_ecovacs_country Dict.get
create_rest_config-runs = refl
