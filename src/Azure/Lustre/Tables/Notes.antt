-- ===== src/Azure/Lustre/Tables/Notes.antt =====
-- A table after a list of notes: the last value of each metric of a key, a timestamp that no noted
-- one exceeds, and each key once.
use azure_lustre_vmss_metric.Prelude.{
  String, true, false, ◌&&◌, ◌≡◌, refl, Option, none, some, List, [], ◌∷◌, ◌++◌, ◌==◌, string_eq,
  if◌then◌else◌, Equatable, arith, Bool-cases, inl, inr, beq_refl,
}
use azure_lustre_vmss_metric.Prelude.Dict.{lookup, insert, lookup-insert, Distinct, insert-Distinct}
use azure_lustre_vmss_metric.Prelude.Number.{Floats, of_nat}
use azure_lustre_vmss_metric.Azure.Lustre.Tables.{Table, or_default, newest, note}

-- A key, a metric, its value and perhaps a timestamp.
abbrev pub Note : Type 0 → Type 0 → Type 0
Note K F = K × String × (F × Option F)

-- The last value that the notes have for the metric of a key.
unfoldable pub last_noted :
    {K F : Type 0} ⦃e : Equatable K⦄ → List (Note K F) → K → String → Option F
last_noted [] key metric = none
last_noted ((k, m, (v, t)) ∷ notes) key metric = elim (last_noted notes key metric) [
  | none ↦ if k == key && m == metric then some v else none
  | some w ↦ some w
]

-- `w`, or `old` where there is none
unfoldable pub or_old : {F : Type 0} → Option F → Option F → Option F
or_old none old = old
or_old (some w) old = some w

pub or_old-none : {F : Type 0} → (o : Option F) → or_old o none ≡ o
unfolding or_old
or_old-none none = refl
or_old-none (some w) = refl

module _ {K F : Type 0} ⦃e : Equatable K⦄ (floats : Floats F) where
  unfoldable pub note_all : List (Note K F) → Table K F → Table K F
  unfolding note
  note_all [] table = table
  note_all ((key, metric, latest) ∷ notes) table =
      note_all notes (note floats key metric latest table)

module _ {K F : Type 0} ⦃e : Equatable K⦄ where
  -- `table.values[key].get(metric)`, or nothing where there is no such key
  unfoldable pub noted_value : Table K F → K → String → Option F
  unfolding lookup
  noted_value table key metric = lookup metric (or_default (lookup key table.values) [])

module _ {K F : Type 0} ⦃e : Equatable K⦄ (floats : Floats F) where
  noted_value-note :
      (k key : K) (m metric : String) (latest : F × Option F) (table : Table K F)
      → noted_value (note floats k m latest table) key metric
        ≡ (if k == key && m == metric then some latest.0 else noted_value table key metric)
  unfolding noted_value note
  noted_value-note k key m metric (v, t) table =
      let old = or_default (lookup k table.values) [] in
      ground (
        arith,
        e.equals_iff k key,
        lookup-insert k key (insert m v old) table.values,
        lookup-insert m metric v old,
      )

  pub noted_value-note_all :
      (notes : List (Note K F)) (table : Table K F) (key : K) (metric : String)
      → noted_value (note_all floats notes table) key metric
        ≡ or_old (last_noted notes key metric) (noted_value table key metric)
  unfolding note_all last_noted or_old
  noted_value-note_all [] table key metric = refl
  noted_value-note_all ((k, m, (v, t)) ∷ notes) table key metric = ground (
    arith,
    noted_value-note k key m metric (v, t) table,
    noted_value-note_all notes (note floats k m (v, t) table) key metric,
  )

  pub note_all-Distinct :
      (notes : List (Note K F)) (table : Table K F)
      → Distinct table.values
      → Distinct (note_all floats notes table).values
  unfolding note_all note
  note_all-Distinct [] table h = h
  note_all-Distinct ((k, m, (v, t)) ∷ notes) table h =
      note_all-Distinct notes (note floats k m (v, t) table) (insert-Distinct k _ table.values h)

-- The comparison of floats that are not NaN.
pub record IsOrdered {F : Type 0} (floats : Floats F) : Type 0 where
  pub asym : (a b : F) → floats.lt a b ≡ true → floats.lt b a ≡ false
  pub irrefl : (a : F) → floats.lt a a ≡ false
  pub trans : (a b c : F) → floats.lt b a ≡ false → floats.lt c b ≡ false → floats.lt c a ≡ false

-- A timestamp is there, and `t` is not after it.
abbrev pub Reaches : {F : Type 0} → Floats F → Option F → F → Type 0
Reaches floats none t = ⊥
Reaches floats (some newest) t = floats.lt newest t ≡ false

abbrev pub newest_of : {K F : Type 0} ⦃e : Equatable K⦄ → Table K F → K → Option F
unfolding lookup
newest_of table key = lookup key table.timestamps

module _ {F : Type 0} (floats : Floats F) (order : IsOrdered floats) where
  Reaches-some :
      (old : Option F) (t : F)
      → Reaches floats old t
      → (newest_time : F) × (old ≡ some newest_time) × (floats.lt newest_time t ≡ false)
  Reaches-some none t h = absurd h
  Reaches-some (some newest_time) t h = (newest_time, refl, h)

  newest-Reaches :
      (t s : F) (old : Option F) → Reaches floats old s → floats.lt (newest floats t old) s ≡ false
  unfolding newest
  newest-Reaches t s none h = absurd h
  newest-Reaches t s (some b) h =
      ground (arith, h, order.asym t b, order.irrefl t, order.trans s b t h)

  newest_self : (t : F) (old : Option F) → floats.lt (newest floats t old) t ≡ false
  unfolding newest
  newest_self t none = ground (arith, order.irrefl t, order.asym t (of_nat floats 0))
  newest_self t (some b) = ground (arith, order.irrefl t, order.asym t b)

module _ {K F : Type 0} ⦃e : Equatable K⦄ (floats : Floats F) (order : IsOrdered floats) where
  note-stays :
      (k key : K) (m : String) (latest : F × Option F) (table : Table K F) (s : F)
      → Reaches floats (newest_of table key) s
      → Reaches floats (newest_of (note floats k m latest table) key) s
  unfolding note
  note-stays k key m (v, none) table s h = h
  note-stays k key m (v, some t) table s h =
      let now = newest floats t (lookup k table.timestamps) in
      elim (Bool-cases (k == key)) [
        | inl is ↦
            rw (lookup-insert k key now table.timestamps, is, (e.equals_iff k key).0 is)
              (newest-Reaches floats order t s (lookup key table.timestamps) h)
        | inr isnt ↦ rw (lookup-insert k key now table.timestamps, isnt) h
      ]

  note_all-stays :
      (notes : List (Note K F)) (key : K) (table : Table K F) (s : F)
      → Reaches floats (newest_of table key) s
      → Reaches floats (newest_of (note_all floats notes table) key) s
  unfolding note_all
  note_all-stays [] key table s h = h
  note_all-stays ((k, m, (v, t)) ∷ notes) key table s h =
      note_all-stays notes key (note floats k m (v, t) table) s
        (note-stays k key m (v, t) table s h)

  note_self :
      (k : K) (m : String) (v t : F) (table : Table K F)
      → Reaches floats (newest_of (note floats k m (v, some t) table) k) t
  unfolding note
  note_self k m v t table =
      rw
        (
          lookup-insert k k (newest floats t (lookup k table.timestamps)) table.timestamps,
          beq_refl k,
        )
        (newest_self floats order t (lookup k table.timestamps))

  note_all-Reaches :
      (before after : List (Note K F)) (key : K) (m : String) (v t : F) (table : Table K F)
      → Reaches floats
          (newest_of (note_all floats (before ++ (key, m, (v, some t)) ∷ after) table) key)
          t
  unfolding note_all
  note_all-Reaches [] after key m v t table =
      note_all-stays after key (note floats key m (v, some t) table) t (note_self key m v t table)
  note_all-Reaches ((k, n, (w, s)) ∷ before) after key m v t table =
      note_all-Reaches before after key m v t (note floats k n (w, s) table)

  -- A key for which a timestamp was noted has one at the end, and no timestamp that was noted for it
  -- is after that one, whatever the order of the readings. No float that is compared is a NaN.
  pub note_all-timestamps :
      (before after : List (Note K F)) (key : K) (metric : String) (value time : F)
      (table : Table K F)
      → let end = note_all floats (before ++ (key, metric, (value, some time)) ∷ after) table in
        (newest_time : F) × (lookup key end.timestamps ≡ some newest_time)
        × (floats.lt newest_time time ≡ false)
  unfolding newest_of
  note_all-timestamps before after key metric value time table =
      let end = note_all floats (before ++ (key, metric, (value, some time)) ∷ after) table in
      Reaches-some floats order (lookup key end.timestamps) time
        (note_all-Reaches before after key metric value time table)
