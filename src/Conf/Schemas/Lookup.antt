-- ===== src/Conf/Schemas/Lookup.antt =====
-- `Match` and `Get` of conf/schemas.go agree on the positions of the index.
use metrictank.Common.{
  ℕ, zero, suc, ◌+◌, ◌-◌, ◌%◌, ◌^◌, ◌<◌, ◌≡◌, refl, sym, ap, ◌∙◌, inl, inr, true, false, List, [],
  ◌∷◌, ◌++◌, Option, none, some, ltb, ◌==◌, get_elem?, length, arith, Bool-cases, append_assoc,
  subst,
}
use metrictank.Tsz.Bits.{length-append}
use metrictank.Conf.Retention.{Retention}
use metrictank.Conf.Schemas.{
  Schema, Schemas, sub_schemas, expand, new_schemas, best_fit, at_position, pick, match_loop,
  match_schema, get_schema,
}

-- What `Match` may find: a schema at its position, or the default behind the last one.
pub data Finds (s : Schemas) : Option (ℕ × Schema) → Type 0 where
  at :
      (k : ℕ) (x : Schema)
      → k < length s.index
      → get_elem? s.index k ≡ some x
      → Finds s (some (k % 2 ^ 16, x))
  behind : Finds s (some (length s.index % 2 ^ 16, s.default_schema))

best_fit-inside :
    (rets : List Retention) (j interval : ℕ)
    → 0 < j + length rets
    → best_fit rets j interval < j + length rets
unfolding best_fit
best_fit-inside [] j interval h = omega (arith, h)
best_fit-inside (r ∷ rets) j interval h = elim (Bool-cases (ltb interval r.seconds_per_point)) [
  | inl e ↦ rw (best_fit, e) (omega arith)
  | inr e ↦
      let ih = best_fit-inside rets (suc j) interval (omega arith) in
      rw (best_fit, e) (omega (arith, ih))
]

get-append :
    {A : Type 0} (xs ys : List A) (k : ℕ) → get_elem? (xs ++ ys) (length xs + k) ≡ get_elem? ys k
get-append [] ys k = ap (get_elem? ys) {x = 0 + k} {y = k} (omega arith)
get-append (x ∷ xs) ys k =
    ap (get_elem? (x ∷ (xs ++ ys))) {x = suc (length xs) + k} {y = suc (length xs + k)}
      (omega arith)
    ∙ get-append xs ys k

get-inside :
    {A : Type 0} (xs : List A) (k : ℕ) → k < length xs → (x : A) × (get_elem? xs k ≡ some x)
get-inside [] k h = absurd (omega (arith, h))
get-inside (x ∷ xs) zero h = (x, refl)
get-inside (x ∷ xs) (suc k) h = get-inside xs k (omega (arith, h))

length-sub_schemas :
    (s : Schema) (rets : List Retention) → length (sub_schemas s rets) ≡ length rets
unfolding sub_schemas
length-sub_schemas s [] = refl
length-sub_schemas s (r ∷ rets) = ap suc (length-sub_schemas s rets)

at_position-Finds : (s : Schemas) (k : ℕ) → k < length s.index → Finds s (at_position s.index k)
at_position-Finds s k h = let (x, e) = get-inside s.index k h in rw (at_position, e) (at k x h e)

abbrev Looped : Schemas → List Schema → List ℕ → ℕ → ℕ → List Schema → Type 0
Looped s ss metric interval n pre =
    s.index ≡ pre ++ expand ss
    → length (expand ss) < n
    → Finds s (match_loop n s (length pre) metric interval)

-- A round of the loop, at the schemas of one pattern.
group-Looped :
    (x : Schema) (rets : List Retention) (s : Schemas) (ss : List Schema) (metric : List ℕ)
    (interval n : ℕ) (pre : List Schema)
    → ((m : ℕ) (pre : List Schema) → Looped s ss metric interval m pre)
    → s.index ≡ pre ++ (sub_schemas x rets ++ expand ss)
    → length (sub_schemas x rets ++ expand ss) < suc n
    → Finds s (match_loop (suc n) s (length pre) metric interval)
unfolding match_loop pick expand sub_schemas
group-Looped x [] s ss metric interval n pre ih e h = ih (suc n) pre e h
group-Looped x (r ∷ rets) s ss metric interval n pre ih e h =
    let y : Schema = record x { retentions = r ∷ rets } in
    let group = sub_schemas x (r ∷ rets) in
    let size = length-append pre (group ++ expand ss) in
    let size' = length-append group (expand ss) in
    let count = length-sub_schemas x (r ∷ rets) in
    let here : get_elem? s.index (length pre) ≡ some y =
      ap (get_elem? s.index) {x = length pre} {y = length pre + 0} (omega arith)
      ∙ ap (λ index. get_elem? index (length pre + 0)) e
      ∙ get-append pre (group ++ expand ss) 0 in
    let total = ap length e in
    elim (Bool-cases (x.pattern metric)) [
      | inl t ↦
          rw (match_loop, here, t)
            (elim (Bool-cases (interval == 0)) [
              | inl z ↦
                  rw (pick, z) (at (length pre) y (omega (arith, total, size, size', count)) here)
              | inr z ↦
                  let inside = best_fit-inside (r ∷ rets) 0 interval (omega arith) in
                  rw (pick, z)
                    (at_position-Finds s _ (omega (arith, total, size, size', count, inside)))
            ])
      | inr t ↦
          let moved : length (pre ++ group) ≡ length pre + suc (length rets) =
            length-append pre group ∙ ap (λ k. length pre + k) count in
          rw (match_loop, here, t)
            (subst (λ i. Finds s (match_loop n s i metric interval)) moved
              (ih n (pre ++ group) (e ∙ sym (append_assoc pre group (expand ss)))
                (omega (arith, h, size', count))))
    ]

match_loop-Looped :
    (ss : List Schema) (s : Schemas) (metric : List ℕ) (interval n : ℕ) (pre : List Schema)
    → Looped s ss metric interval n pre
unfolding expand match_loop
match_loop-Looped ss s metric interval zero pre e h = absurd (omega (arith, h))
match_loop-Looped [] s metric interval (suc n) pre e h =
    let end : get_elem? s.index (length pre) ≡ none =
      ap (get_elem? s.index) {x = length pre} {y = length pre + 0} (omega arith)
      ∙ ap (λ index. get_elem? index (length pre + 0)) e
      ∙ get-append pre [] 0 in
    rw (match_loop, end) behind
match_loop-Looped (x ∷ ss) s metric interval (suc n) pre e h =
    group-Looped x x.retentions s ss metric interval n pre
      (λ m pre. match_loop-Looped ss s metric interval m pre) e h

-- For an index of fewer than 65535 schemas, `Match` panics for no metric and no interval, and `Get` of
-- the position that it returns is the schema that it returns.
pub get_schema-match_schema :
    (raw : List Schema) (default : Schema) (metric : List ℕ) (interval : ℕ)
    → length (new_schemas raw default).index < 2 ^ 16 - 1
    → let s = new_schemas raw default in
      (k : ℕ) × (x : Schema) × (match_schema s metric interval ≡ some (k, x))
      × (get_schema s k ≡ some x)
unfolding new_schemas match_schema get_schema
get_schema-match_schema raw default metric interval h =
    let s = new_schemas raw default in
    found s (match_schema s metric interval) h (
      match_loop-Looped (raw ++ default ∷ []) s metric interval (suc (length s.index)) [] refl
        (omega arith))
  where
    found :
        (s : Schemas) (r : Option (ℕ × Schema))
        → length s.index < 2 ^ 16 - 1
        → Finds s r
        → (k : ℕ) × (x : Schema) × (r ≡ some (k, x)) × (get_schema s k ≡ some x)
    found s r h (at k x lt e) =
        let word : k % 2 ^ 16 ≡ k = omega (arith, lt, h) in
        let inside : ltb (length s.index % 2 ^ 16) ((k % 2 ^ 16 + 1) % 2 ^ 16) ≡ false =
          ground arith in
        (k % 2 ^ 16, x, refl, rw inside (ap (get_elem? s.index) word ∙ e))
    found s r h behind =
        let last : ltb (length s.index % 2 ^ 16) ((length s.index % 2 ^ 16 + 1) % 2 ^ 16) ≡ true =
          ground arith in
        (length s.index % 2 ^ 16, s.default_schema, refl, rw last refl)
