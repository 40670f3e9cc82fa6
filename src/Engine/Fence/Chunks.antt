-- ===== src/Engine/Fence/Chunks.antt =====
-- crates/snaca-engine/src/memory_fence.rs: what the scrubber puts out does not depend on how a stream is
-- cut into chunks.
use snaca.Base.{
  ℕ, zero, suc, ◌≤◌, ◌<◌, Option, none, some, List, [], ◌∷◌, ◌++◌, append-nil, append_assoc, ◌≡◌,
  ◌≢◌, refl, sym, ap, ◌∙◌, arith, length, length-append,
}
use mathlib.Core.List.{flatten}
use snaca.Core.Content.{Text}
use snaca.Engine.Fence.{
  OpenClassification, not_protected, incomplete, protected, protected_self_closing, classify_open,
  StreamingScrubber, Round, stop, go, new, before_lt, after_lt, on_open, on_lt, on_close, round,
  close_tag, after_close, tail_overlap, prepend, next_round, scan, push, flush, scrub_from,
}
use snaca.Engine.Fence.Search.{
  after_close-grown, after_close-overlap, after_close-shorter, tail_overlap-length,
}
use snaca.Engine.Fence.Stable.{
  grown_open, IsShorterOpen, classify_open-grown, classify_open-IsShorter, before_lt-append,
  before_lt-split, before_lt-grown,
}

abbrev grow : Text → StreamingScrubber → StreamingScrubber
grow c s = record s { held = s.held ++ c }

-- A round with something put out before it.
abbrev add : Text → Round → Round
add out (stop o s) = stop (out ++ o) s
add out (go o s) = go (out ++ o) s

add-nil : (r : Round) → add [] r ≡ r
add-nil (stop o s) = refl
add-nil (go o s) = refl

add-next_round :
    (out : Text) (r : Round) (rest : StreamingScrubber → Text × StreamingScrubber)
    → next_round (add out r) rest ≡ prepend out (next_round r rest)
add-next_round out (stop o s) rest = refl
add-next_round out (go o s) rest = ap (λ t. (t, (rest s).1)) (append_assoc out o (rest s).0)

-- What holds of a round on `h` and on `h ++ c`: one that goes on is the same round, on a shorter text,
-- and one that stops leaves what the later text needs.
abbrev IsStable : Text → Option Text → Text → Round → Type 0
IsStable h i c (go o s) = (round (h ++ c) i ≡ go o (grow c s)) × (length s.held < length h)
IsStable h i c (stop o s) =
    (round (h ++ c) i ≡ add o (round (s.held ++ c) s.inside)) × (length s.held ≤ length h)

on_lt-add : (out o : Text) (rest : Option Text) → on_lt (out ++ o) rest ≡ add out (on_lt o rest)
on_lt-add out o none = refl
on_lt-add out o (some t) = on_verdict (classify_open t)
  where
    on_verdict : (v : OpenClassification) → on_open (out ++ o) t v ≡ add out (on_open o t v)
    on_verdict not_protected =
        ap (λ x. go x (record { held = t; inside = none })) (append_assoc out o (60 ∷ []))
    on_verdict incomplete = refl
    on_verdict (protected name rest) = refl
    on_verdict (protected_self_closing rest) = refl

-- Text without a `<` goes straight through.
round-plain : (p d : Text) → after_lt p ≡ none → round (p ++ d) none ≡ add p (round d none)
unfolding round
round-plain p d e =
    let both = before_lt-append p d e in
    rw (both.0, both.1) (on_lt-add p (before_lt d) (after_lt d))

before_lt-plain : (h : Text) → after_lt h ≡ none → before_lt h ≡ h
unfolding before_lt
before_lt-plain h e = ap before_lt (sym (append-nil h)) ∙ (before_lt-append h [] e).0 ∙ append-nil h

on_close-overlap :
    (name x y : Text) (o : Option Text)
    → tail_overlap (close_tag name) x ≡ tail_overlap (close_tag name) y
    → on_close name x o ≡ on_close name y o
on_close-overlap name x y none e = ap (λ t. stop [] (record { held = t; inside = some name })) e
on_close-overlap name x y (some rest) e = refl

round-IsStable_open :
    (h t c : Text) → after_lt h ≡ some t → IsStable h none c (on_lt (before_lt h) (some t))
unfolding round
round-IsStable_open h t c e = by_verdict (classify_open t) refl (classify_open-IsShorter t)
  where
    open_round :
        (v : OpenClassification)
        → classify_open t ≡ v
        → v ≢ incomplete
        → round (h ++ c) none ≡ on_open (before_lt h) (t ++ c) (grown_open c v)
    open_round v k n =
        let seen = before_lt-grown h t c e in
        rw (seen.0, seen.1, classify_open-grown t c (λ f. n (sym k ∙ f)), k) refl

    by_verdict :
        (v : OpenClassification)
        → classify_open t ≡ v
        → IsShorterOpen t v
        → IsStable h none c (on_open (before_lt h) t v)
    by_verdict not_protected k l =
        (open_round not_protected k (λ f. cc), (before_lt-grown h t c e).2)
    by_verdict incomplete k l =
        let split = before_lt-split h t e in
        (
          ap (λ x. round (x ++ c) none) split.0
              ∙ ap (λ x. round x none) (append_assoc (before_lt h) (60 ∷ t) c)
              ∙ round-plain (before_lt h) (60 ∷ t ++ c) split.1,
          omega (arith, (before_lt-grown h t c e).2),
        )
    by_verdict (protected name rest) k l = (
      open_round (protected name rest) k (λ f. cc),
      omega (arith, l, (before_lt-grown h t c e).2),
    )
    by_verdict (protected_self_closing rest) k l = (
      open_round (protected_self_closing rest) k (λ f. cc),
      omega (arith, l, (before_lt-grown h t c e).2),
    )

round-IsStable : (h c : Text) (i : Option Text) → IsStable h i c (round h i)
unfolding round
round-IsStable h c none = by_lt (after_lt h) refl
  where
    by_lt : (o : Option Text) → after_lt h ≡ o → IsStable h none c (on_lt (before_lt h) o)
    by_lt none e = (
      round-plain h c e ∙ ap (λ p. add p (round c none)) (sym (before_lt-plain h e)),
      omega arith,
    )
    by_lt (some t) e = round-IsStable_open h t c e
round-IsStable h c (some name) = by_close (after_close (close_tag name) h) refl
  where
    by_close :
        (o : Option Text)
        → after_close (close_tag name) h ≡ o
        → IsStable h (some name) c (on_close name h o)
    by_close none e =
        let kept : Text = tail_overlap (close_tag name) h in
        let both = after_close-overlap (close_tag name) h c e in
        (
          ap (on_close name (h ++ c)) both.0
              ∙ on_close-overlap name (h ++ c) (kept ++ c)
                  (after_close (close_tag name) (kept ++ c)) both.1
              ∙ sym
                  (add-nil (on_close name (kept ++ c) (after_close (close_tag name) (kept ++ c)))),
          tail_overlap-length (close_tag name) h,
        )
    by_close (some rest) e = (
      rw (after_close-grown (close_tag name) h c rest e) refl,
      omega (arith, after_close-shorter (close_tag name) h rest e),
    )

-- A fuel beyond the length is enough.
scan-fuel :
    (n m : ℕ) (s : StreamingScrubber) → length s.held < n → length s.held < m → scan n s ≡ scan m s
unfolding scan
scan-fuel zero m s l k = absurd (omega (arith, l))
scan-fuel (suc n) zero s l k = absurd (omega (arith, k))
scan-fuel (suc n) (suc m) s l k =
    by_round (round s.held s.inside) (round-IsStable s.held [] s.inside) (scan-fuel n m)
  where
    by_round :
        (r : Round)
        → IsStable s.held s.inside [] r
        → ((s' : StreamingScrubber)
            → length s'.held < n
            → length s'.held < m
            → scan n s' ≡ scan m s')
        → next_round r (scan n) ≡ next_round r (scan m)
    by_round (stop o s') st ih = refl
    by_round (go o s') st ih =
        ap (prepend o) (ih s' (omega (arith, st.1, l)) (omega (arith, st.1, k)))

abbrev scan_all : StreamingScrubber → Text × StreamingScrubber
scan_all s = scan (suc (length s.held)) s

prepend_assoc :
    (o p : Text) (r : Text × StreamingScrubber) → prepend o (prepend p r) ≡ prepend (o ++ p) r
prepend_assoc o p r = ap (λ t. (t, r.1)) (sym (append_assoc o p r.0))

-- More text behind a scanned one: the scan goes on from the state it left.
scan-grow :
    (n : ℕ) (s : StreamingScrubber) (c : Text)
    → length s.held < n
    → scan_all (grow c s) ≡ prepend (scan n s).0 (scan_all (grow c (scan n s).1))
unfolding scan
scan-grow zero s c l = absurd (omega (arith, l))
scan-grow (suc n) s c l =
    by_round (round s.held s.inside) (round-IsStable s.held c s.inside) (scan-grow n)
  where
    by_round :
        (r : Round)
        → IsStable s.held s.inside c r
        → ((s' : StreamingScrubber) (c : Text)
            → length s'.held < n
            → scan_all (grow c s') ≡ prepend (scan n s').0 (scan_all (grow c (scan n s').1)))
        → scan_all (grow c s)
          ≡ prepend (next_round r (scan n)).0 (scan_all (grow c (next_round r (scan n)).1))
    by_round (stop o s') st ih =
        ap (λ r. next_round r (scan (length (s.held ++ c)))) st.0
        ∙ add-next_round o (round (s'.held ++ c) s'.inside) (scan (length (s.held ++ c)))
        ∙ ap (prepend o) (
            scan-fuel (suc (length (s.held ++ c))) (suc (length (s'.held ++ c))) (grow c s')
              (omega (arith, st.1, length-append s.held c, length-append s'.held c)) (omega arith))
    by_round (go o s') st ih =
        ap (λ r. next_round r (scan (length (s.held ++ c)))) st.0
        ∙ ap (prepend o) (
            scan-fuel (length (s.held ++ c)) (suc (length (s'.held ++ c))) (grow c s')
              (omega (arith, st.1, length-append s.held c, length-append s'.held c)) (omega arith)
            ∙ ih s' c (omega (arith, st.1, l)))
        ∙ prepend_assoc o (scan n s').0 (scan_all (grow c (scan n s').1))

push-append :
    (s : StreamingScrubber) (c d : Text)
    → push s (c ++ d) ≡ prepend (push s c).0 (push (push s c).1 d)
unfolding push
push-append s c d =
    ap (λ h. scan_all (record s { held = h })) (sym (append_assoc s.held c d))
    ∙ scan-grow (suc (length (s.held ++ c))) (grow c s) d (omega arith)

scrub_from-flatten :
    (s : StreamingScrubber) (c : Text) (chunks : List Text)
    → scrub_from s (c ∷ chunks) ≡ scrub_from s ((c ++ flatten chunks) ∷ [])
unfolding scrub_from flatten
scrub_from-flatten s c [] = ap (λ t. scrub_from s (t ∷ [])) (sym (append-nil c))
scrub_from-flatten s c (d ∷ chunks) =
    let s' : StreamingScrubber = (push s c).1 in
    let rest : Text = d ++ flatten chunks in
    ap (λ t. (push s c).0 ++ t) (scrub_from-flatten s' d chunks)
    ∙ sym (append_assoc (push s c).0 (push s' rest).0 (flush (push s' rest).1).0)
    ∙ ap (λ r. r.0 ++ (flush r.1).0) (sym (push-append s c rest))

-- Whatever the chunks of a stream, the scrubber puts out in all what it puts out for the whole text at
-- once: what is held back at the end of a chunk is just what later text may decide.
pub scrub_from-chunks :
    (chunks : List Text) → scrub_from new chunks ≡ scrub_from new (flatten chunks ∷ [])
unfolding scrub_from flatten
scrub_from-chunks [] = refl
scrub_from-chunks (c ∷ chunks) = scrub_from-flatten new c chunks
