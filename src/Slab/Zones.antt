-- ===== src/Slab/Zones.antt =====
-- Zone maps: every slab that a range query prunes holds no matching row.
use snapdb.Prelude.{
  ◌≡◌, ◌≢◌, sym, subst, inl, inr, true, false, ◌||◌, List, [], ◌∷◌, arith, contains, if◌then◌else◌,
  String, Bool-cases,
}
use snapdb.Prelude.Eq.{◌==◌, nat_eq, string_eq, beq_refl}
use snapdb.Prelude.Dict
use snapdb.Prelude.Dict.{Dict, get-put}
use package.text.Mathlib.TextEquality.{eq_iff}
use snapdb.Value.{Value, null, lt_value, eq_value_iff, value_eq}
use snapdb.Value.Order.{lt_value_irrefl, lt_value_trans}
use snapdb.Schema.{Row, get_or_none}
use snapdb.Slab.{widen_min, widen_max, widen_with}

abbrev pub Zone : Type 0
Zone = Dict String Value

-- The zone has an end for the column, and the value is not past it.
abbrev pub IsLow : Zone → String → Value → Type 0
IsLow zmin name v = (get_or_none zmin name ≢ null) × (lt_value v (get_or_none zmin name) ≡ false)

abbrev pub IsHigh : Zone → String → Value → Type 0
IsHigh zmax name v = (get_or_none zmax name ≢ null) × (lt_value (get_or_none zmax name) v ≡ false)

lt_value_asym : (a b : Value) → lt_value a b ≡ true → lt_value b a ≡ false
lt_value_asym a b h = ground (arith, lt_value_trans a b a, lt_value_irrefl a)

lower_still :
    (z : Zone) (k m : String) (v w : Value)
    → k == m ≡ true
    → (get_or_none z k == null || lt_value v (get_or_none z k)) ≡ true
    → IsLow z m w
    → lt_value w v ≡ false
lower_still z k m v w same lower h =
    let p : k ≡ m = (eq_iff k m).0 same in
    let low : IsLow z k w = subst (λ k. IsLow z k w) (sym p) h in
    ground (
      arith,
      low.0,
      low.1,
      eq_value_iff (get_or_none z k) null,
      lt_value_trans w v (get_or_none z k),
    )

higher_still :
    (z : Zone) (k m : String) (v w : Value)
    → k == m ≡ true
    → (get_or_none z k == null || lt_value (get_or_none z k) v) ≡ true
    → IsHigh z m w
    → lt_value v w ≡ false
higher_still z k m v w same higher h =
    let p : k ≡ m = (eq_iff k m).0 same in
    let high : IsHigh z k w = subst (λ k. IsHigh z k w) (sym p) h in
    ground (
      arith,
      high.0,
      high.1,
      eq_value_iff (get_or_none z k) null,
      lt_value_trans (get_or_none z k) v w,
    )

get_or_none-put :
    (z : Zone) (k : String) (v : Value) (m : String)
    → get_or_none (Dict.put z k v) m ≡ (if k == m then v else get_or_none z m)
unfolding get_or_none
get_or_none-put z k v m = ground (arith, get-put z k m v)

pub widen_min-if :
    (z : Zone) (k : String) (v : Value)
    → widen_min z k v
      ≡ (if get_or_none z k == null || lt_value v (get_or_none z k) then Dict.put z k v else z)
unfolding widen_min get_or_none
widen_min-if z k v = ground (arith, eq_value_iff null null)

pub widen_max-if :
    (z : Zone) (k : String) (v : Value)
    → widen_max z k v
      ≡ (if get_or_none z k == null || lt_value (get_or_none z k) v then Dict.put z k v else z)
unfolding widen_max get_or_none
widen_max-if z k v = ground (arith, eq_value_iff null null)

pub widen_min-new : (z : Zone) (k : String) (v : Value) → v ≢ null → IsLow (widen_min z k v) k v
widen_min-new z k v n =
    rw widen_min-if (elim (Bool-cases (get_or_none z k == null || lt_value v (get_or_none z k))) [
      | inl lower ↦ rw lower (rw (get_or_none-put z k v k, beq_refl k) (n, lt_value_irrefl v))
      | inr kept ↦ rw kept (ground (arith, eq_value_iff (get_or_none z k) null), ground arith)
    ])

pub widen_min-keep :
    (z : Zone) (k : String) (v : Value) (m : String) (w : Value)
    → v ≢ null
    → IsLow z m w
    → IsLow (widen_min z k v) m w
widen_min-keep z k v m w n h =
    rw widen_min-if (elim (Bool-cases (get_or_none z k == null || lt_value v (get_or_none z k))) [
      | inl lower ↦ rw lower (
          rw (get_or_none-put z k v m) (elim (Bool-cases (k == m)) [
            | inl same ↦ rw same (n, lower_still z k m v w same lower h)
            | inr other ↦ rw other h
          ]))
      | inr kept ↦ rw kept h
    ])

pub widen_max-new : (z : Zone) (k : String) (v : Value) → v ≢ null → IsHigh (widen_max z k v) k v
widen_max-new z k v n =
    rw widen_max-if (elim (Bool-cases (get_or_none z k == null || lt_value (get_or_none z k) v)) [
      | inl higher ↦ rw higher (rw (get_or_none-put z k v k, beq_refl k) (n, lt_value_irrefl v))
      | inr kept ↦ rw kept (ground (arith, eq_value_iff (get_or_none z k) null), ground arith)
    ])

pub widen_max-keep :
    (z : Zone) (k : String) (v : Value) (m : String) (w : Value)
    → v ≢ null
    → IsHigh z m w
    → IsHigh (widen_max z k v) m w
widen_max-keep z k v m w n h =
    rw widen_max-if (elim (Bool-cases (get_or_none z k == null || lt_value (get_or_none z k) v)) [
      | inl higher ↦ rw higher (
          rw (get_or_none-put z k v m) (elim (Bool-cases (k == m)) [
            | inl same ↦ rw same (n, higher_still z k m v w same higher h)
            | inr other ↦ rw other h
          ]))
      | inr kept ↦ rw kept h
    ])

-- The loop over the columns, for either end.
module _ (widen : Zone → String → Value → Zone) (Bounds : Zone → String → Value → Type 0)
    (new : (z : Zone) (k : String) (v : Value) → v ≢ null → Bounds (widen z k v) k v)
    (keep : (z : Zone) (k : String) (v : Value) (m : String) (w : Value)
      → v ≢ null
      → Bounds z m w
      → Bounds (widen z k v) m w)
    (row : Row) where
  step_keeps :
      (z : Zone) (k m : String) (w : Value)
      → Bounds z m w
      → Bounds (if get_or_none row k == null then z else widen z k (get_or_none row k)) m w
  step_keeps z k m w h = elim (Bool-cases (get_or_none row k == null)) [
    | inl e ↦ rw e h
    | inr e ↦
        rw e (
          keep z k (get_or_none row k) m w (ground (arith, eq_value_iff (get_or_none row k) null))
            h)
  ]

  step_new :
      (z : Zone) (k : String)
      → get_or_none row k ≢ null
      → Bounds
          (if get_or_none row k == null then z else widen z k (get_or_none row k))
          k
          (get_or_none row k)
  step_new z k n = elim (Bool-cases (get_or_none row k == null)) [
    | inl e ↦ absurd (n ((eq_value_iff (get_or_none row k) null).0 e))
    | inr e ↦ rw e (new z k (get_or_none row k) n)
  ]

  pub widen_with-keep :
      (names : List String) (z : Zone) (m : String) (w : Value)
      → Bounds z m w
      → Bounds (widen_with widen names row z) m w
  unfolding widen_with
  widen_with-keep [] z m w h = h
  widen_with-keep (k ∷ names) z m w h = widen_with-keep names _ m w (step_keeps z k m w h)

  pub widen_with-new :
      (names : List String) (z : Zone) (m : String)
      → contains m names ≡ true
      → get_or_none row m ≢ null
      → Bounds (widen_with widen names row z) m (get_or_none row m)
  unfolding widen_with
  widen_with-new [] z m c n = cc
  widen_with-new (k ∷ names) z m c n = elim (Bool-cases (m == k)) [
    | inl e ↦
        subst (λ m. Bounds (widen_with widen (k ∷ names) row z) m (get_or_none row m))
          (sym ((eq_iff m k).0 e))
          (widen_with-keep names _ k (get_or_none row k)
            (step_new z k (subst (λ m. get_or_none row m ≢ null) ((eq_iff m k).0 e) n)))
    | inr e ↦ widen_with-new names _ m (ground arith) n
  ]
