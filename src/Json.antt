-- ===== src/Json.antt =====
-- The values of Python's `json` module, as cli/kswarm_cli, backend/app and worker read and write them.
pub mod Dumps
use text.Mathlib.Text.{◌==◌ as str_eq}
use kswarm.Prelude.{Bool, List, [], ◌∷◌, Option, none, some, String, if◌then◌else◌}
use kswarm.Prelude.Int.{ℤ}

-- A finite float is given by its `repr`, which determines it.
mutual
  pub data Json : Type 0 where
    null : Json
    bool : Bool → Json
    int : ℤ → Json
    float : String → Json
    str : String → Json
    arr : Items → Json
    obj : Fields → Json

  pub data Items : Type 0 where
    nil : Items
    cons : Json → Items → Items

  -- The entries of a dict in insertion order, each key once.
  pub data Fields : Type 0 where
    end : Fields
    field : String → Json → Fields → Fields

-- `value[key]` where the key is present.
unfoldable pub lookup : String → Fields → Option Json
lookup key end = none
lookup key (field k v rest) = if str_eq k key then some v else lookup key rest

-- `value.get(key)`
unfoldable pub get : Fields → String → Json
unfolding lookup
get fields key = elim (lookup key fields) [ none ↦ null | some v ↦ v ]

unfoldable pub items : Items → List Json
items nil = []
items (cons v rest) = v ∷ items rest

unfoldable pub of_list : List Json → Items
of_list [] = nil
of_list (v ∷ rest) = cons v (of_list rest)

unfoldable pub entries : List (String × Json) → Fields
entries [] = end
entries ((k, v) ∷ rest) = field k v (entries rest)
