-- ===== src/Recs/Insert/Count.antt =====
-- `insertrec` stores each recording of a series.
use mathlib.Core.List.{Permᴰ}
use tvpvrd.Prelude.{
  All, map, ◌++◌, length-append, sym, subst, ap, ◌∙◌, ℕ, if◌then◌else◌, Bool, List, zero, suc, ◌+◌,
  ◌-◌, ◌≤◌, ◌≡◌, refl, arith, true, false, [], ◌∷◌, length, ltb, ◌==◌, ==_refl, inl, inr,
}
use tvpvrd.Prelude.Int.{ℤ, pos}
use tvpvrd.Prelude.Perms.{append_left-Permᴰ, length-Permᴰ, middle-Permᴰ, refl-Permᴰ}
use tvpvrd.Datetime.{Dates}
use tvpvrd.Datetime.Weekdays.{WeekdaysStep}
use tvpvrd.Datetime.Advances.{InTime, InTime-once, increcdays_ends}
use tvpvrd.Recs.Entry.{Entry}
use tvpvrd.Recs.State.{Config, Recs, returns}
use tvpvrd.Recs.Overlap.{isentryoverlapping, dates_of}
use tvpvrd.Recs.Insert.{
  Series, series_of, is_excluded, expand, insert_series, insertrec, add_numbered,
  reset_start_number,
}
use tvpvrd.Recs.Insert.Invariant.{add_slot-Permᴰ}
use tvpvrd.Recs.Insert.Returns.{Repeatable, StoredInTime, series_entry-Returns}

-- The `n` numbers from `g` on.
abbrev pub numbers_from : ℕ → ℕ → List ℕ
numbers_from g zero = []
numbers_from g (suc n) = g ∷ numbers_from (g + 1) n

-- The list of the stream has the old recordings and `n` new ones, of that stream, which have the next
-- `n` sequence numbers.
pub record Grows (video n : ℕ) (s s' : Recs) : Type 0 where
  pub added : List Entry
  pub stored : Permᴰ (added ++ s.recs video) (s'.recs video)
  pub own : map (λ x. x.seqnbr) added ≡ numbers_from s.global_seqnbr n
  pub here : All (λ x. x.video ≡ video) added
  pub numbers : s'.global_seqnbr ≡ s.global_seqnbr + n

length-Grows :
    (video n : ℕ) (s s' : Recs)
    → Grows video n s s'
    → length (s'.recs video) ≡ length (s.recs video) + n
length-Grows video n s s' g =
    let count : length g.added ≡ n =
      sym (length-map (λ x. x.seqnbr) g.added)
      ∙ ap length g.own
      ∙ length-numbers_from s.global_seqnbr n in
    omega (arith, length-Permᴰ g.stored, length-append g.added (s.recs video), count)
  where
    length-numbers_from : (g n : ℕ) → length (numbers_from g n) ≡ n
    length-numbers_from g zero = refl
    length-numbers_from g (suc n) = ap suc (length-numbers_from (g + 1) n)

    length-map : {A B : Type 0} (f : A → B) (xs : List A) → length (map f xs) ≡ length xs
    length-map f [] = refl
    length-map f (x ∷ xs) = ap suc (length-map f xs)

then-Grows :
    (video n : ℕ) (s mid s' : Recs)
    → Grows video 1 s mid
    → Grows video n mid s'
    → Grows video (suc n) s s'
then-Grows video n s mid s' g h =
    let (e, one, numbered) = single g.added s.global_seqnbr g.own in
    let first : Permᴰ (e ∷ s.recs video) (mid.recs video) =
      subst (λ xs. Permᴰ (xs ++ s.recs video) (mid.recs video)) one g.stored in
    let placed : All (λ x. x.video ≡ video) (e ∷ []) =
      subst (All (λ x. x.video ≡ video)) one g.here in
    record {
      added = e ∷ h.added;
      stored =
          Permᴰ.trans (middle-Permᴰ e h.added (s.recs video))
            (Permᴰ.trans (append_left-Permᴰ h.added first) h.stored);
      own =
          ap (λ k. k ∷ map (λ x. x.seqnbr) h.added) numbered
          ∙ ap (λ ks. s.global_seqnbr ∷ ks) (h.own ∙ ap (λ k. numbers_from k n) g.numbers);
      here = (placed.0, h.here);
      numbers = omega (arith, g.numbers, h.numbers);
    }
  where
    single :
        (xs : List Entry) (k : ℕ)
        → map (λ x. x.seqnbr) xs ≡ k ∷ []
        → (e : Entry) × (xs ≡ e ∷ []) × (e.seqnbr ≡ k)
    single [] k h = cc
    single (e ∷ []) k h = (e, refl, cc h)
    single (e ∷ f ∷ xs) k h = cc

is_excluded-none : (n : ℕ) (xs : List ℕ) → xs ≡ [] → is_excluded n xs ≡ false
unfolding is_excluded
is_excluded-none n [] h = refl
is_excluded-none n (x ∷ xs) h = cc

module _ (c : Config) (video : ℕ) where
  add_numbered-Grows :
      (e : Entry) (s : Recs)
      → suc (length (s.recs video)) ≤ c.max_entries
      → Grows video 1 s (add_numbered c video e s)
  unfolding add_numbered
  add_numbered-Grows e s room = record {
    added = record e { seqnbr = s.global_seqnbr; video = video } ∷ [];
    stored = rw (==_refl video) (
        add_slot-Permᴰ c video (record e { seqnbr = s.global_seqnbr }) (s.recs video)
          (ground arith));
    own = refl;
    here = (refl, tt);
    numbers = refl;
  }

  reset-Grows :
      (b : Bool) (e : Entry) (s : Recs)
      → suc (length (s.recs video)) ≤ c.max_entries
      → Grows video 1 s (add_numbered c video e (reset_start_number b s))
  reset-Grows true e s room =
      let g = add_numbered-Grows e (reset_start_number true s) room in
      record { added = g.added; stored = g.stored; own = g.own; here = g.here; numbers = g.numbers }
  reset-Grows false e s room = add_numbered-Grows e s room

  expand-Grows :
      (r : Series) (left i : ℕ) (d : Dates) (s : Recs)
      → WeekdaysStep c.time
      → InTime c.time r.entry.recurrence_type left d
      → r.entry.recurrence_mangling ≤ 2
      → r.entry.recurrence_type ≤ 9
      → r.excluded ≡ []
      → length (s.recs video) + left ≤ c.max_entries
      → (s' : Recs) × (expand c video r left i d s ≡ returns (true, s')) × Grows video left s s'
  unfolding expand
  expand-Grows r zero i d s law fine mangling type all room = (
    s,
    refl,
    record {
      added = [];
      stored = refl-Permᴰ (s.recs video);
      own = refl;
      here = tt;
      numbers = omega arith;
    },
  )
  expand-Grows r (suc left) i d s law fine mangling type all room =
      let (e, made) = series_entry-Returns c s r i d mangling in
      let kept = is_excluded-none (i + r.entry.recurrence_start_number) r.excluded all in
      let reset = reset_start_number r.entry.recurrence s in
      let one = reset-Grows r.entry.recurrence e s (omega arith) in
      elim (increcdays_ends c.time r.entry.recurrence_type d law
        (InTime-once c.time r.entry.recurrence_type left d fine)) [
          | inr (unknown, stays) ↦ absurd (omega arith)
          | inl (known, (f, move, next)) ↦
              let (s', done, more) =
                expand-Grows r left (i + 1) _ (add_numbered c video e reset) law (fine f move).2
                  mangling type all
                  (omega (arith, length-Grows video 1 s (add_numbered c video e reset) one)) in
              (
                s',
                rw (kept, made, next, expand) done,
                then-Grows video left s (add_numbered c video e reset) s' one more,
              )
        ]

under_if :
    {A : Type 0} (b : Bool) {x : A} (y : A) {z : A} → b ≡ true → x ≡ z → (if b then x else y) ≡ z
under_if true y h e = e
under_if false y h e = cc

-- Where weekdays follow one another, and `mktime` fails for no date at which the repetitions are
-- stored and gives none a time before 1970: a repeatable recording of a known type that meets no
-- other, and for which the list has room, is accepted. With nothing excluded, the old recordings of
-- the stream stay, one is added for each repetition, these have the next sequence numbers, one after
-- the other, and the answer is the last of these.
pub insertrec_series :
    (c : Config) (now : ℤ) (s : Recs) (video : ℕ) (e : Entry)
    → WeekdaysStep c.time
    → StoredInTime c now e
    → e.recurrence ≡ true
    → Repeatable c e
    → e.recurrence_type ≤ 9
    → length (s.recs video) + e.recurrence_num ≤ c.max_entries
    → isentryoverlapping c s video e ≡ returns false
    → (s' : Recs) × (insertrec c now s video e []
        ≡ returns (pos (s.global_seqnbr + e.recurrence_num - 1), s'))
      × Grows video e.recurrence_num s s'
insertrec_series c now s video e law fine repeated ok type room free =
    (accepted.0, answer, accepted.2)
  where
    accepted :
        (s' : Recs) × (insert_series c now s video e []
          ≡ returns (pos (s.global_seqnbr + e.recurrence_num - 1), s'))
        × Grows video e.recurrence_num s s'
    accepted =
        unfold insert_series in
        let not_zero : (e.recurrence_num == 0) ≡ false = ground (arith, ok.some_number) in
        let fits : ltb c.max_entries (length (s.recs video) + e.recurrence_num) ≡ false =
          ground arith in
        let r = series_of c now e [] ok.core ok.filetype in
        let (s', done, g) =
          expand-Grows c video r e.recurrence_num 0
            (dates_of c.time r.entry.ts_start r.entry.ts_end) s law fine ok.mangling type refl
            room in
        (
          record s' { recurrence_id = s'.recurrence_id + 1 },
          rw (fits, ok.dot, not_zero, done, g.numbers) refl,
          record {
            added = g.added;
            stored = g.stored;
            own = g.own;
            here = g.here;
            numbers = g.numbers;
          },
        )

    answer :
        insertrec c now s video e []
        ≡ returns (pos (s.global_seqnbr + e.recurrence_num - 1), accepted.0)
    answer = unfold insertrec in rw free (under_if e.recurrence _ repeated accepted.1)
