-- ===== src/Domain/Value.antt =====
-- The dynamic values (`any`) of a note's front matter: core/domain/entities.go and noteid.go.
use para_mcp.Prelude.{◌≡◌, refl, Option, none, some, List, ℕ, arith, if◌then◌else◌}
use para_mcp.Prelude.Text.{Text, same}

-- A value of type `any`, as far as the program inspects it; `other` is any further dynamic type.
mutual
  pub data Value : Type 0 where
    string : Text → Value
    strings : List Text → Value
    slice : Values → Value
    object : Fields → Value
    other : ℕ → Value

  pub data Values : Type 0 where
    nil : Values
    cons : Value → Values → Values

  -- `map[string]any`
  pub data Fields : Type 0 where
    end : Fields
    field : Text → Value → Fields → Fields

-- `m[k]`
unfoldable pub get_field : Text → Fields → Option Value
get_field k end = none
get_field k (field j v fs) = let rest = get_field k fs in if same j k then some v else rest

-- `m[k] = v`
unfoldable pub put_field : Text → Value → Fields → Fields
put_field k v end = field k v end
put_field k v (field j w fs) =
    let rest = put_field k v fs in if same j k then field j v fs else field j w rest

pub get_field-put_field :
    (k j : Text) (v : Value) (fs : Fields)
    → get_field j (put_field k v fs) ≡ (if same k j then some v else get_field j fs)
unfolding get_field put_field
get_field-put_field k j v end = refl
get_field-put_field k j v (field i w fs) = ground (arith, get_field-put_field k j v fs)
