-- ===== src/Azure/Value.antt =====
-- The values that Azure's clients return, which the program reads through `Mapping.get` or
-- `getattr`, and the readers that azure_managed_lustre.py and azure_resource_graph.py share.
--
-- A `mapping` is read by its keys, an `object` by its attributes; a `sequence` is a list, a `tuple` a
-- tuple or another iterable with a length. A `moment` is a `datetime`, given by its POSIX time, a naive one read as UTC.
use azure_lustre_vmss_metric.Prelude.{
  String, Bool, true, false, ◌&&◌, not, Option, none, some, List, [], ◌∷◌, ◌==◌, string_eq,
  is_empty, if◌then◌else◌,
}
use azure_lustre_vmss_metric.Prelude.Number.{ℤ, Floats, of_nat}
use azure_lustre_vmss_metric.Prelude.Result.{Result, ok, err}

mutual
  pub data Value (F : Type 0) : Type 0 where
    absent : Value F
    text : String → Value F
    number : F → Value F
    moment : F → Value F
    sequence : Items F → Value F
    tuple : Items F → Value F
    mapping : Entries F → Value F
    object : Entries F → Value F

  pub data Items (F : Type 0) : Type 0 where
    nil : Items F
    cons : Value F → Items F → Items F

  pub data Entries (F : Type 0) : Type 0 where
    end : Entries F
    entry : String → Value F → Entries F → Entries F

-- What the standard library does to values and texts. Nothing is assumed of it.
pub record Python (F : Type 0) : Type 0 where
  -- `str(value)`, `text.lower()`, and whether `text.strip()` is empty
  pub str : Value F → String
  pub lower : String → String
  pub strip : String → String
  -- `float(value)` and `int(value)`, or the exception
  pub float : Value F → Result String F
  pub int : Value F → Result String ℤ
  -- `datetime.fromisoformat(text.replace("Z", "+00:00")).timestamp()`, or the exception
  pub fromisoformat : String → Result String F

abbrev pub to_list : {F : Type 0} → Items F → List (Value F)
to_list nil = []
to_list (cons v vs) = v ∷ to_list vs

abbrev pub keys : {F : Type 0} → Entries F → List (Value F)
keys end = []
keys (entry name v es) = text name ∷ keys es

abbrev pub is_absent : {F : Type 0} → Value F → Bool
is_absent absent = true
is_absent _ = false

-- `v if v is not None else w`
abbrev pub or_absent : {F : Type 0} → Value F → Value F → Value F
or_absent v w = if is_absent v then w else v

module _ {F : Type 0} where
  unfoldable pub get : String → Entries F → Value F
  get name end = absent
  get name (entry key v es) = if key == name then v else get name es

  -- `getattr(v, name, None)`
  unfoldable pub getattr : Value F → String → Value F
  unfolding get
  getattr (object es) name = get name es
  getattr _ name = absent

  -- `_attr_or_mapping`
  unfoldable pub attr_or_mapping : Value F → String → Value F
  unfolding get
  attr_or_mapping (mapping es) name = get name es
  attr_or_mapping (object es) name = get name es
  attr_or_mapping _ name = absent

  -- The part of `_iter_sequence_attr` below the two reads: `list(value)` of a mapping gives its keys.
  unfoldable pub as_list : Value F → List (Value F)
  as_list (sequence vs) = to_list vs
  as_list (tuple vs) = to_list vs
  as_list (mapping es) = keys es
  as_list _ = []

  -- `_iter_sequence_attr`
  unfoldable pub iter_sequence_attr : Value F → String → Option String → List (Value F)
  unfolding attr_or_mapping as_list
  iter_sequence_attr item name none = as_list (attr_or_mapping item name)
  iter_sequence_attr item name (some fallback) =
      as_list (or_absent (attr_or_mapping item name) (attr_or_mapping item fallback))

module _ {F : Type 0} (floats : Floats F) where
  -- `bool(value)`
  unfoldable pub truthy : Value F → Bool
  truthy absent = false
  truthy (text s) = not (s == "")
  truthy (number x) = not (floats.le x (of_nat floats 0) && floats.le (of_nat floats 0) x)
  truthy (moment t) = true
  truthy (sequence vs) = not (is_empty (to_list vs))
  truthy (tuple vs) = not (is_empty (to_list vs))
  truthy (mapping es) = not (is_empty (keys es))
  truthy (object es) = true

  -- `v or w`
  unfoldable pub or_value : Value F → Value F → Value F
  unfolding truthy
  or_value v w = if truthy v then v else w

module _ {F : Type 0} (py : Python F) where
  -- `value is not None and str(value).strip()`, as a test
  unfoldable pub has_text : Value F → Bool
  has_text v = not (is_absent v) && not (py.strip (py.str v) == "")

  -- `_required_str`: the name of the field stands for the `ValueError`
  unfoldable pub required_str : Entries F → String → Result String String
  unfolding get has_text
  required_str row key =
      let value = get key row in if has_text value then ok (py.str value) else err key

  -- `_optional_str`
  unfoldable pub optional_str : Entries F → String → String → String
  unfolding get has_text
  optional_str row key default =
      let value = get key row in if has_text value then py.str value else default

  unfoldable pub is_blank_value : Value F → Bool
  is_blank_value absent = true
  is_blank_value (text s) = s == ""
  is_blank_value _ = false

  -- `_float_value`
  unfoldable pub float_value : Value F → F → Result String F
  unfolding is_blank_value
  float_value v default = if is_blank_value v then ok default else py.float v

  -- `_int_value`
  unfoldable pub int_value : Value F → ℤ → Result String ℤ
  unfolding is_blank_value
  int_value v default = if is_blank_value v then ok default else py.int v
