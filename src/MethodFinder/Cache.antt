-- ===== src/MethodFinder/Cache.antt =====
-- The cache in front of the search, and the callers that fill the messages they get. The messages of
-- the first answer for a method are the cached ones, so what is written into them is in the cache.
use grpcreplay.Base.{
  Bool, true, false, ◌&&◌, ◌||◌, if◌then◌else◌, ◌≡◌, refl, ap, ◌∙◌, sym, subst, Bool-cases,
  Option-cases, inl, inr, Option, none, some, List, [], ◌∷◌, Bytes, bytes_key, bytes_eq,
  bytes_eq_iff, arith, Result, ok, err, panic,
}
use mathlib.Core.Option.{some-injective}
use grpcreplay.GoMap.{GoMap, get, put, get-put}
use grpcreplay.MethodFinder.{
  Descriptors, MethodInputOutput, FinderError, find, found, answered, get_method,
}

module _ ⦃d : Descriptors⦄ where
  -- `Get`, or the caller that got the first answer for a method writes into its two messages. What
  -- is written into a clone is seen by nobody else.
  pub data Event : Type 0 where
    asks : Bytes → Event
    writes : Bytes → d.Content → d.Content → Event

  abbrev pub write : d.Content → d.Content → MethodInputOutput → MethodInputOutput
  write a b m = record {
    in_type = record (m.in_type) { content = a };
    out_type = record (m.out_type) { content = b };
  }

  abbrev pub write_shared :
      GoMap Bytes MethodInputOutput
      → Bytes
      → d.Content
      → d.Content
      → Option MethodInputOutput
      → GoMap Bytes MethodInputOutput
  write_shared cache k a b none = cache
  write_shared cache k a b (some m) = put cache k (write a b m)

  -- The answers to the calls of `Get` among the events.
  unfoldable pub get_methods :
      GoMap Bytes MethodInputOutput → List Event → List (Result FinderError MethodInputOutput)
  get_methods cache [] = []
  get_methods cache (asks k ∷ es) = let r = get_method cache k in r.1 ∷ get_methods r.0 es
  get_methods cache (writes k a b ∷ es) = get_methods (write_shared cache k a b (get cache k)) es

  abbrev pub asked : List Event → Bytes → Bool
  asked [] k = false
  asked (asks j ∷ past) k = bytes_eq j k || asked past k
  asked (writes j a b ∷ past) k = asked past k

  -- What was last written into the messages of the first answer, if anything was; `past` has the last
  -- event first.
  abbrev pub written : List Event → Bytes → Option (d.Content × d.Content)
  written [] k = none
  written (asks j ∷ past) k = written past k
  written (writes j a b ∷ past) k =
      let before = written past k in if bytes_eq j k && asked past k then some (a, b) else before

  abbrev pub filled :
      Option (d.Content × d.Content)
      → Result FinderError MethodInputOutput
      → Result FinderError MethodInputOutput
  filled none r = r
  filled (some (a, b)) (ok m) = ok (write a b m)
  filled (some (a, b)) (err e) = err e
  filled (some (a, b)) panic = panic

  abbrev pub answers : List Event → List Event → List (Result FinderError MethodInputOutput)
  answers past [] = []
  answers past (asks k ∷ es) = filled (written past k) (find k) ∷ answers (asks k ∷ past) es
  answers past (writes k a b ∷ es) = answers (writes k a b ∷ past) es

  abbrev kept : Bool → Result FinderError MethodInputOutput → Option MethodInputOutput
  kept true (ok m) = some m
  kept true (err e) = none
  kept true panic = none
  kept false r = none

  -- The cache after these events.
  abbrev Tells : List Event → GoMap Bytes MethodInputOutput → Type 0
  Tells past cache =
      (k : Bytes) → get cache k ≡ kept (asked past k) (filled (written past k) (find k))

  unasked : (past : List Event) (k : Bytes) → asked past k ≡ false → written past k ≡ none
  unasked [] k h = refl
  unasked (asks j ∷ past) k h = unasked past k (ground arith)
  unasked (writes j a b ∷ past) k h = ground (arith, h, unasked past k h)

  -- A call of `Get` leaves every other entry, and under its own key what it answers.
  asks-Tells :
      (past : List Event) (cache cache' : GoMap Bytes MethodInputOutput) (k : Bytes)
      → Tells past cache
      → ((j : Bytes) → bytes_eq k j ≡ false → get cache' j ≡ get cache j)
      → get cache' k ≡ kept true (filled (written past k) (find k))
      → Tells (asks k ∷ past) cache'
  asks-Tells past cache cache' k h others own j = elim (Bool-cases (bytes_eq k j)) [
    | inl same ↦ rw same (
        subst (λ i. get cache' i ≡ kept true (filled (written past i) (find i)))
          ((bytes_eq_iff k j).0 same) own)
    | inr other ↦ rw other (others j other ∙ h j)
  ]

  Answers : List Event → GoMap Bytes MethodInputOutput → Bytes → Option MethodInputOutput → Type 0
  Answers past cache k o =
      ((answered cache k o).1 ≡ filled (written past k) (find k))
      × Tells (asks k ∷ past) (answered cache k o).0

  hit :
      (past : List Event) (cache : GoMap Bytes MethodInputOutput) (k : Bytes)
      (m : MethodInputOutput)
      → Tells past cache
      → get cache k ≡ some m
      → filled (written past k) (find k) ≡ ok m
      → Answers past cache k (some m)
  unfolding Answers answered
  hit past cache k m h e f =
      (sym f, asks-Tells past cache cache k h (λ j other. refl) (e ∙ ap (kept true) (sym f)))

  miss :
      (past : List Event) (cache : GoMap Bytes MethodInputOutput) (k : Bytes)
      (r : Result FinderError MethodInputOutput)
      → Tells past cache
      → get cache k ≡ none
      → find k ≡ r
      → filled (written past k) (find k) ≡ r
      → ((found cache k r).1 ≡ filled (written past k) (find k))
        × Tells (asks k ∷ past) (found cache k r).0
  unfolding found
  miss past cache k (ok m) h e fresh f = (
    sym f,
    asks-Tells past cache (put cache k m) k h
        (λ j other. ground (arith, get-put cache k j m, other))
        (ground (arith, get-put cache k k m, (bytes_eq_iff k k).1 refl) ∙ ap (kept true) (sym f)),
  )
  miss past cache k (err x) h e fresh f =
      (sym f, asks-Tells past cache cache k h (λ j other. refl) (e ∙ ap (kept true) (sym f)))
  miss past cache k panic h e fresh f =
      (sym f, asks-Tells past cache cache k h (λ j other. refl) (e ∙ ap (kept true) (sym f)))

  -- What is written into messages makes no error of an answer.
  same_failure :
      (w : Option (d.Content × d.Content)) (r : Result FinderError MethodInputOutput)
      → kept true (filled w r) ≡ none
      → filled w r ≡ r
  same_failure none r e = refl
  same_failure (some (a, b)) (ok m) e = absurd (cc e)
  same_failure (some (a, b)) (err x) e = refl
  same_failure (some (a, b)) panic e = refl

  kept_some :
      (r : Result FinderError MethodInputOutput) (m : MethodInputOutput)
      → kept true r ≡ some m
      → r ≡ ok m
  kept_some (ok n) m e = ap ok (some-injective n m e)
  kept_some (err x) m e = absurd (cc e)
  kept_some panic m e = absurd (cc e)

  answered_lem :
      (past : List Event) (cache : GoMap Bytes MethodInputOutput) (k : Bytes)
      → Tells past cache
      → Answers past cache k (get cache k)
  answered_lem past cache k h = go (get cache k) refl
    where
      at : (t : Bool) → asked past k ≡ t → get cache k ≡ kept t (filled (written past k) (find k))
      at t e = h k ∙ ap (λ b. kept b (filled (written past k) (find k))) e

      missed :
          get cache k ≡ none → filled (written past k) (find k) ≡ find k → Answers past cache k none
      missed e f = unfold Answers answered in miss past cache k (find k) h e refl f

      go : (o : Option MethodInputOutput) → get cache k ≡ o → Answers past cache k o
      go o e = elim (Bool-cases (asked past k)) [
        | inl before ↦ elim (Option-cases o) [
          | inl gone ↦
              subst (Answers past cache k) (sym gone)
                (missed (e ∙ gone) (same_failure _ _ (sym (at true before) ∙ e ∙ gone)))
          | inr (m, there) ↦
              subst (Answers past cache k) (sym there) (
                hit past cache k m h (e ∙ there) (kept_some _ m (sym (at true before) ∙ e ∙ there)))
        ]
        | inr never ↦
            subst (Answers past cache k) (sym (at false never) ∙ e)
              (missed (at false never) (ap (λ w. filled w (find k)) (unasked past k never)))
      ]

  absent :
      (cache : GoMap Bytes MethodInputOutput) (k : Bytes) (a b : d.Content)
      (o : Option MethodInputOutput)
      → get cache k ≡ o
      → o ≡ none
      → get (write_shared cache k a b o) k ≡ none
  absent cache k a b o e f = ap (λ x. get (write_shared cache k a b x) k) f ∙ e ∙ f

  present :
      (cache : GoMap Bytes MethodInputOutput) (k : Bytes) (a b : d.Content)
      (o : Option MethodInputOutput) (m : MethodInputOutput)
      → o ≡ some m
      → get (write_shared cache k a b o) k ≡ some (write a b m)
  present cache k a b o m f =
      ap (λ x. get (write_shared cache k a b x) k) f
      ∙ ground (arith, get-put cache k k (write a b m), (bytes_eq_iff k k).1 refl)

  rewritten :
      (cache : GoMap Bytes MethodInputOutput) (k : Bytes) (a b : d.Content)
      (w : Option (d.Content × d.Content)) (r : Result FinderError MethodInputOutput)
      (o : Option MethodInputOutput)
      → get cache k ≡ o
      → o ≡ kept true (filled w r)
      → get (write_shared cache k a b o) k ≡ kept true (filled (some (a, b)) r)
  rewritten cache k a b none (err x) o e f = absent cache k a b o e f
  rewritten cache k a b (some y) (err x) o e f = absent cache k a b o e f
  rewritten cache k a b none panic o e f = absent cache k a b o e f
  rewritten cache k a b (some y) panic o e f = absent cache k a b o e f
  rewritten cache k a b none (ok m) o e f = present cache k a b o m f
  rewritten cache k a b (some (c, x)) (ok m) o e f = present cache k a b o (write c x m) f

  written_lem :
      (past : List Event) (cache : GoMap Bytes MethodInputOutput) (k : Bytes) (a b : d.Content)
      → Tells past cache
      → Tells (writes k a b ∷ past) (write_shared cache k a b (get cache k))
  written_lem past cache k a b h j = elim (Bool-cases (bytes_eq k j)) [
    | inr other ↦ rw other (untouched (get cache k) other ∙ h j)
    | inl same ↦ rw same (
        subst
          (λ i.
            get (write_shared cache k a b (get cache k)) i
            ≡ kept (asked past i)
                (filled (if asked past i then some (a, b) else written past i) (find i)))
          ((bytes_eq_iff k j).0 same) here)
  ]
    where
      untouched :
          (o : Option MethodInputOutput)
          → bytes_eq k j ≡ false
          → get (write_shared cache k a b o) j ≡ get cache j
      untouched none other = refl
      untouched (some m) other = ground (arith, get-put cache k j (write a b m), other)

      here :
          get (write_shared cache k a b (get cache k)) k
          ≡ kept
              (asked past k)
              (filled (if asked past k then some (a, b) else written past k) (find k))
      here = elim (Bool-cases (asked past k)) [
        | inl before ↦ rw before (
            rewritten cache k a b (written past k) (find k) (get cache k) refl
              (h k ∙ ap (λ t. kept t (filled (written past k) (find k))) before))
        | inr never ↦
            let gone : get cache k ≡ none =
              h k ∙ ap (λ t. kept t (filled (written past k) (find k))) never in
            rw never (ap (λ o. get (write_shared cache k a b o) k) gone ∙ gone)
      ]

  get_methods_from :
      (past : List Event) (cache : GoMap Bytes MethodInputOutput) (es : List Event)
      → Tells past cache
      → get_methods cache es ≡ answers past es
  unfolding get_methods get_method Answers
  get_methods_from past cache [] h = refl
  get_methods_from past cache (asks k ∷ es) h =
      let (e, next) = answered_lem past cache k h in
      rw (e, get_methods_from (asks k ∷ past) (answered cache k (get cache k)).0 es next) refl
  get_methods_from past cache (writes k a b ∷ es) h =
      get_methods_from (writes k a b ∷ past) (write_shared cache k a b (get cache k)) es
        (written_lem past cache k a b h)

  get_empty : (k : Bytes) → get {V = MethodInputOutput} [] k ≡ none
  unfolding get
  get_empty k = refl

  -- From an empty cache, calls of `Get` come one after another, and between them the callers that got
  -- the first answer for a method write into its messages. Then each call answers what `Find` gives,
  -- errors and panics included, with the types that it gives; but the messages hold what the first
  -- caller for the method last wrote into its own, if it has written anything.
  pub get_methods_lem : (es : List Event) → get_methods [] es ≡ answers [] es
  get_methods_lem es = get_methods_from [] [] es get_empty
