-- ===== src/Command/Base.antt =====
-- `Command` of command.py as a value: its class, which fixes `NAME`, and its arguments.
use client_py.Prelude.{String}
use client_py.Value.{Value}

pub record Command : Type 0 where
  pub name : String
  pub args : Value
