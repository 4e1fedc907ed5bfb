-- ===== src/Transaction/Json.antt =====
-- JSON values, which evidence records carry and the journal compares (`serde_json::Value`; numbers
-- are the integers that the gateway writes).
use s.Prelude.{
  String, Bool, Eq, Eq-of_discrete, List, [], ◌∷◌, Option, none, some, String-discrete, ℕ_discrete,
}
use s.Prelude.Int.{ℤ}

mutual
  pub data Json : Type 0 where
    null : Json
    bool : Bool → Json
    number : ℤ → Json
    text : String → Json
    array : Items → Json
    object : Fields → Json

  pub data Items : Type 0 where
    nil : Items
    cons : Json → Items → Items

  pub data Fields : Type 0 where
    end : Fields
    field : String → Json → Fields → Fields

pub Json-discrete : Discrete Json
Json-discrete = hlevel (ℕ_discrete, String-discrete)

instance abbrev pub json_eq : Eq Json
json_eq = Eq-of_discrete Json-discrete

abbrev pub of_option : Option String → Json
of_option none = null
of_option (some s) = text s

abbrev pub of_strings : List String → Items
of_strings [] = nil
of_strings (s ∷ l) = cons (text s) (of_strings l)
