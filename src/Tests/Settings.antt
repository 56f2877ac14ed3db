-- ===== src/Tests/Settings.antt =====
-- The table of settings at concrete names.
use dobby_ai.Base.{◌≡◌, none, some, [], ◌∷◌, arith, codes}
use dobby_ai.Config.{ConfigEntry, config_get, config_set}
use dobby_ai.Config.Env.{getenv, env_load, getenv-env_load}
use dobby_ai.Config.Table.{config_get-set}

abbrev model : ConfigEntry
model = record { section = codes "llm"; key = codes "model"; value = codes "small" }

config_get-set_example :
    config_get
      (some (config_set (model ∷ []) (codes "llm") (codes "model") (codes "large")))
      (codes "llm")
      (codes "model")
      none
    ≡ some (codes "large")
config_get-set_example =
    config_get-set (model ∷ []) (codes "llm") (codes "model") (codes "large") none (omega arith)
      (omega arith) (omega arith)

getenv-env_load_example :
    getenv
      (codes "KEY")
      (env_load
        (some (codes "# keys\n" ∷ codes "export KEY = 'a b'\n" ∷ codes "KEY=c\n" ∷ []))
        []).1
    ≡ some (codes "a b")
unfolding getenv dobby_ai.Config.Env.env_line dobby_ai.Text.skip_spaces
    dobby_ai.Config.Env.strip_end dobby_ai.Text.is_space dobby_ai.Text.split_char
    dobby_ai.Text.is_prefix dobby_ai.Base.str_eq dobby_ai.Config.Env.env_value
getenv-env_load_example =
    getenv-env_load (codes "KEY")
      (codes "# keys\n" ∷ codes "export KEY = 'a b'\n" ∷ codes "KEY=c\n" ∷ []) []
