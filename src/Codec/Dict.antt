-- ===== src/Codec/Dict.antt =====
-- Python's `dict` with text keys, as the `Fields` of a value.
use pybus.Codec.{Fields, Value, end, field}
use pybus.Prelude.{
  Bool, Option, String, arith, eq_iff, eq_refl, false, if◌then◌else◌, none, refl, some, ◌==◌, ◌∙◌,
  ◌≡◌,
}

-- `d.get(key)`
unfoldable pub get : String → Fields → Option Value
get k end = none
get k (field j v rest) = if j == k then some v else get k rest

-- `d[key] = value`
unfoldable pub put : String → Value → Fields → Fields
put k v end = field k v end
put k v (field j w rest) = if j == k then field j v rest else field j w (put k v rest)

-- `{key: value for key, value in d.items() if …}`
unfoldable pub select : (String → Bool) → Fields → Fields
select p end = end
select p (field k v rest) = if p k then field k v (select p rest) else select p rest

pub get-put :
    (k j : String) (v : Value) (d : Fields)
    → get j (put k v d) ≡ (if k == j then some v else get j d)
unfolding get put
get-put k j v end = refl
get-put k j v (field i w rest) =
    ground (arith, eq_iff k j, eq_iff i k, eq_iff i j, get-put k j v rest)

pub get-put_self : (k : String) (v : Value) (d : Fields) → get k (put k v d) ≡ some v
get-put_self k v d = get-put k k v d ∙ rw (eq_refl k)

pub get-put_ne :
    (k j : String) (v : Value) (d : Fields) → (k == j) ≡ false → get j (put k v d) ≡ get j d
get-put_ne k j v d h = get-put k j v d ∙ rw h
