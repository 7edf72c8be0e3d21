-- ===== src/Json.antt =====
-- QJsonValue and QJsonObject, as far as the daemon uses them: building an object from a list of
-- entries, `operator[]`, `value`, `contains`, and the conversions with their defaults.
use noctalia_unofficial_auth.Base.{
  ◌≡◌, String, Bool, true, false, List, [], ◌∷◌, arith, ◌==◌, if◌then◌else◌, comparable_string, leb,
}
use noctalia_unofficial_auth.Base.Int.{ℤ, pos, negsuc}

-- `num` is a number that is an integer, `real` any other, kept as its text.
mutual
  pub data Json : Type 0 where
    null : Json
    boolean : Bool → Json
    num : ℤ → Json
    real : String → Json
    str : String → Json
    arr : Items → Json
    obj : JsonObject → Json

  pub data Items : Type 0 where
    nil : Items
    cons : Json → Items → Items

  pub data JsonObject : Type 0 where
    empty : JsonObject
    field : String → Json → JsonObject → JsonObject

-- QJsonObject{{k, v}, …}; the keys of each list in the code are distinct.
abbrev pub object : List (String × Json) → JsonObject
object [] = empty
object ((k, v) ∷ l) = field k v (object l)

abbrev pub texts : List String → Items
texts [] = nil
texts (s ∷ l) = cons (str s) (texts l)

-- o[k] = v
abbrev pub set : String → Json → JsonObject → JsonObject
set k v empty = field k v empty
set k v (field j w o) = if j == k then field k v o else field j w (set k v o)

-- o.value(k); an absent key reads as an undefined value, whose conversions are those of null.
abbrev pub value : String → JsonObject → Json
value k empty = null
value k (field j w o) = if j == k then w else value k o

abbrev pub contains : String → JsonObject → Bool
contains k empty = false
contains k (field j w o) = if j == k then true else contains k o

abbrev pub is_empty : JsonObject → Bool
is_empty empty = true
is_empty (field j w o) = false

abbrev pub to_string : Json → String
to_string (str s) = s
to_string _ = ""

abbrev pub to_bool : Json → Bool
to_bool (boolean b) = b
to_bool _ = false

abbrev fits_int : ℤ → Bool
fits_int (pos n) = leb n 2147483647
fits_int (negsuc n) = leb n 2147483647

-- toInt(): 0 for what is no integer of 32 bits.
abbrev pub to_int : Json → ℤ
to_int (num n) = if fits_int n then n else pos 0
to_int _ = pos 0

abbrev pub to_object : Json → JsonObject
to_object (obj o) = o
to_object _ = empty

pub value-set :
    (k j : String) (v : Json) (o : JsonObject)
    → value j (set k v o) ≡ (if k == j then v else value j o)
value-set k j v empty = ground arith
value-set k j v (field i w o) = ground (
  arith,
  comparable_string.same_iff k j,
  comparable_string.same_iff i k,
  comparable_string.same_iff i j,
  value-set k j v o,
)

pub contains-set :
    (k j : String) (v : Json) (o : JsonObject)
    → contains j (set k v o) ≡ (if k == j then true else contains j o)
contains-set k j v empty = ground arith
contains-set k j v (field i w o) = ground (
  arith,
  comparable_string.same_iff k j,
  comparable_string.same_iff i k,
  comparable_string.same_iff i j,
  contains-set k j v o,
)
