-- ===== src/Json.antt =====
-- encoding/json as the program uses it. A document is its tree; an integer that fits an int is told
-- apart from any other number, because the program decodes numbers into int only. How bytes are read
-- into a tree is an argument of the definitions that decode bytes. Decoding into a struct follows
-- the package: a key names the field whose name it matches up to case, null leaves a field as it is,
-- a later key of the same name wins, and a value of another type is an error.
pub mod Decode
pub mod Dict
pub mod Equal
use claude_code_router.Common.{ℕ, Text, Bool, false, ◌==◌, List, [], ◌∷◌, ◌++◌}

-- `negsuc n` is -(n + 1).
pub data ℤ : Type 0 where
  pos : ℕ → ℤ
  negsuc : ℕ → ℤ

abbrev pub same_int : ℤ → ℤ → Bool
same_int (pos a) (pos b) = a == b
same_int (negsuc a) (negsuc b) = a == b
same_int (pos a) (negsuc b) = false
same_int (negsuc a) (pos b) = false

mutual
  pub data Json : Type 0 where
    null : Json
    bool : Bool → Json
    int : ℤ → Json
    other_number : Text → Json
    str : Text → Json
    arr : Items → Json
    obj : Fields → Json

  pub data Items : Type 0 where
    nil : Items
    cons : Json → Items → Items

  pub data Fields : Type 0 where
    end : Fields
    field : Text → Json → Fields → Fields

abbrev pub items : Items → List Json
items nil = []
items (cons v vs) = v ∷ items vs

abbrev pub fields : Fields → List (Text × Json)
fields end = []
fields (field k v fs) = (k, v) ∷ fields fs
