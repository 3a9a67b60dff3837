-- ===== src/Dynamo/Items.antt =====
-- The attribute values of internal/stack/dynamodb.go and the functions that read them. An item lists
-- its attributes; where a key is listed twice, the first entry is the one that the map holds.
use Prim.Native.String.{◌++◌}
use container_provisioner_k.Base.{
  ℕ, ◌<◌, ◌*◌, ◌^◌, String, Bool, true, false, Option, none, some, List, [], ◌∷◌, ◌==◌, string_eq,
  if◌then◌else◌, ◌≡◌,
}
use container_provisioner_k.Base.Int.{ℤ}
use container_provisioner_k.Base.Text.Numbers.{parse_int64}
use container_provisioner_k.Errors.{Result, ok, err, plain, ◌>>=◌}
use container_provisioner_k.Models.{Time}

mutual
  -- types.AttributeValue: a text, a number written in decimal, a list, a map, or a member that the
  -- code never writes.
  pub data Attr : Type 0 where
    member_s : String → Attr
    member_n : String → Attr
    member_l : AttrList → Attr
    member_m : Item → Attr
    member_other : Attr

  pub data AttrList : Type 0 where
    no_attr : AttrList
    attrs : Attr → AttrList → AttrList

  pub data Item : Type 0 where
    no_entry : Item
    entry : String → Attr → Item → Item

-- item[key]
unfoldable pub find : String → Item → Option Attr
find key no_entry = none
find key (entry k attr item) = let rest = find key item in if k == key then some attr else rest

-- len(item) == 0
abbrev pub is_empty : Item → Bool
is_empty no_entry = true
is_empty (entry k attr item) = false

abbrev pub av_s : String → Attr
av_s = member_s

abbrev pub av_n : String → Attr
av_n = member_n

-- `value, _ := f(...)`: the zero value where the call fails
abbrev pub or_zero : {A : Type 0} → A → Result A → A
or_zero zero_value (ok a) = a
or_zero zero_value (err e) = zero_value

abbrev as_string : String → Option Attr → Result String
as_string key none = err (plain ("missing attribute " ++ key))
as_string key (some (member_s value)) = ok value
as_string key (some _) = err (plain ("attribute " ++ (key ++ " is not string")))

unfoldable pub attr_string : Item → String → Result String
unfolding find
attr_string item key = as_string key (find key item)

abbrev as_optional : Option Attr → Option String
as_optional (some (member_s value)) = if value == "" then none else some value
as_optional _ = none

unfoldable pub attr_string_optional : Item → String → Option String
unfolding find
attr_string_optional item key = as_optional (find key item)

abbrev parsed : String → Option ℤ → Result ℤ
parsed key none = err (plain ("attribute " ++ (key ++ " parse failed")))
parsed key (some out) = ok out

abbrev as_int64 : String → Option Attr → Result ℤ
as_int64 key none = err (plain ("missing attribute " ++ key))
as_int64 key (some (member_n value)) = parsed key (parse_int64 value)
as_int64 key (some _) = err (plain ("attribute " ++ (key ++ " is not number")))

unfoldable pub attr_int64 : Item → String → Result ℤ
unfolding find
attr_int64 item key = as_int64 key (find key item)

-- The conversion int(n) keeps every int64 where int has 64 bits.
abbrev pub attr_int : Item → String → Result ℤ
attr_int item key = attr_int64 item key >>= λ n. ok n

-- t.UTC().Format(time.RFC3339Nano) and time.Parse(time.RFC3339Nano, s)
pub record TimeLibrary : Type 0 where
  pub format : Time → String
  pub parse : String → Result Time

-- The nanoseconds from the zero Time to the year 10000, whose text RFC 3339 has no place for.
abbrev pub year_10000 : ℕ
year_10000 = 315537897600 * 10 ^ 9

-- A time that is printed reads back, up to the year 9999.
pub record TimeLaws (lib : TimeLibrary) : Type 0 where
  pub parse-format : (t : Time) → t < year_10000 → lib.parse (lib.format t) ≡ ok t

unfoldable pub attr_time : TimeLibrary → Item → String → Result Time
unfolding attr_string
attr_time lib item key = attr_string item key >>= λ s. lib.parse s

-- The loop of attrPortSpecs, attrPortMappings and attrJobErrors: the type test of the attribute and
-- of each entry, and what `read` makes of an entry.
module _ {A : Type 0} (key : String) (read : Item → Result A) where
  unfoldable pub read_entries : AttrList → Result (List A)
  read_entries no_attr = ok []
  read_entries (attrs (member_m item) list) =
      let rest = read_entries list in read item >>= λ a. rest >>= λ out. ok (a ∷ out)
  read_entries (attrs _ list) = err (plain ("attribute " ++ (key ++ " entry is not map")))

  unfoldable pub as_entries : Option Attr → Result (List A)
  unfolding read_entries
  as_entries none = ok []
  as_entries (some (member_l list)) = read_entries list
  as_entries (some _) = err (plain ("attribute " ++ (key ++ " is not list")))

-- The list that portSpecsToAttr, portMappingsToAttr and jobErrorsToAttr write.
unfoldable pub to_list : {A : Type 0} → (A → Item) → List A → AttrList
to_list write [] = no_attr
to_list write (a ∷ rest) = attrs (member_m (write a)) (to_list write rest)
