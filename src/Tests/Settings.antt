-- ===== src/Tests/Settings.antt =====
-- Loading the configuration from an environment.
use container_provisioner_k.Base.{
  String, Option, none, [], ◌∷◌, ◌≡◌, ◌↔◌, refl, if◌then◌else◌, ◌==◌, string_eq,
}
use container_provisioner_k.Base.Text.{trim_space}
use container_provisioner_k.Config.{Config}
use container_provisioner_k.Config.Load.{
  ParseLibrary, Env, get_parsed, gather, read_config, load, loaded, refused, validate_config,
  complaints,
}
use container_provisioner_k.Config.Reading.{IsRead}
use container_provisioner_k.Config.Sound.{IsSound, load-IsSound}

-- A library that reads no duration and no number.
abbrev library : ParseLibrary
library = record { parse_duration = λ s. none; parse_float = λ s. none }

-- Only the API key is set.
abbrev env : Env
env key = if key == "API_KEY" then "secret" else ""

abbrev cfg : Config
cfg = (read_config library env).0

loads : load library none env ≡ loaded cfg
unfolding load read_config gather get_parsed validate_config complaints trim_space
loads = refl

-- With an empty key nothing is loaded, and the message names the variable.
refuses :
    load library none (λ key. "")
    ≡ refused ("API_KEY must not be empty when API_KEY_ENABLED=true" ∷ [])
unfolding load read_config gather get_parsed validate_config complaints trim_space
refuses = refl

abbrev no_error : Option String
no_error = none

load-IsSound_example :
    (load library none env ≡ loaded cfg)
    ↔ ((no_error ≡ none) × IsRead library env cfg × IsSound cfg)
load-IsSound_example = load-IsSound library none env cfg
