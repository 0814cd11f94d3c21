-- ===== src/Pull/Finding/Once.antt =====
-- Each APK that the device lists is sent once.
use dtu.Prelude.{
  ℕ, ◌≡◌, refl, sym, ap, ◌∙◌, inl, inr, Bool, true, false, not, ◌&&◌, ◌||◌, List, [], ◌∷◌, arith,
  Bool-cases, is_empty, Text, same, same_iff, same_refl,
}
use mathlib.Core.Path.{subst}
use dtu.Pull.Exec.{World, Outside, called}
use dtu.Pull.Status.{exists}
use dtu.Pull.Finding.{unseen, send_each, find_apks}

-- No text stands there twice.
abbrev pub AreDistinct : List Text → Type 0
AreDistinct [] = Unit {0}
AreDistinct (x ∷ xs) = (exists x xs ≡ false) × AreDistinct xs

-- Equal texts are seen alike.
same_seen :
    (l p : Text) (seen : List Text)
    → same l p ≡ true
    → (exists l seen ≡ exists p seen) × (is_empty l ≡ is_empty p)
same_seen l p seen e =
    let eq = (same_iff l p).0 e in
    (ap (λ (t : Text). exists t seen) eq, ap (λ (t : Text). is_empty t) eq)

unseen-exists :
    (p : Text) (seen lines : List Text)
    → is_empty p ≡ false
    → exists p (unseen seen lines) ≡ (exists p lines && not (exists p seen))
unfolding unseen
unseen-exists p seen [] h = refl
unseen-exists p seen (l ∷ lines) h = elim (Bool-cases (is_empty l || exists l seen)) [
  | inl e ↦ rw (unseen, e) (unseen-exists p seen lines h ∙ old l (exists p lines) e)
  | inr e ↦
      rw (unseen, e)
        (ap (λ (b : Bool). same l p || b) (unseen-exists p (l ∷ seen) lines h)
          ∙ new l (exists p lines) e)
]
  where
    old :
        (l : Text) (later : Bool)
        → (is_empty l || exists l seen) ≡ true
        → (later && not (exists p seen)) ≡ ((same l p || later) && not (exists p seen))
    old l later e = elim (Bool-cases (same l p)) [
      | inl q ↦ let facts = same_seen l p seen q in ground (arith, facts.0, facts.1, e, h, q)
      | inr q ↦ ground (arith, q)
    ]

    new :
        (l : Text) (later : Bool)
        → (is_empty l || exists l seen) ≡ false
        → (same l p || (later && not (same l p || exists p seen)))
          ≡ ((same l p || later) && not (exists p seen))
    new l later e = elim (Bool-cases (same l p)) [
      | inl q ↦ let facts = same_seen l p seen q in ground (arith, facts.0, facts.1, e, h, q)
      | inr q ↦ ground (arith, q)
    ]

unseen-AreDistinct : (seen lines : List Text) → AreDistinct (unseen seen lines)
unfolding unseen
unseen-AreDistinct seen [] = tt
unseen-AreDistinct seen (l ∷ lines) = elim (Bool-cases (is_empty l || exists l seen)) [
  | inl e ↦ rw (unseen, e) (unseen-AreDistinct seen lines)
  | inr e ↦
      rw (unseen, e)
        (
          unseen-exists l (l ∷ seen) lines (ground (arith, e))
              ∙ (let r = same_refl l in ground (arith, r)),
          unseen-AreDistinct (l ∷ seen) lines,
        )
]

module _ (o : Outside) (never : (n : ℕ) → o.cancel n ≡ false) where
  send_each_all : {A : Type 0} (xs : List A) (w : World) → (send_each o xs w).0 ≡ xs
  unfolding send_each
  send_each_all [] w = refl
  send_each_all (x ∷ xs) w =
      rw (send_each, never w.calls) (ap (λ ys. x ∷ ys) (send_each_all xs (called w)))

-- Where the pull is not cancelled, the APKs sent are the paths listed, whatever lines repeat or are
-- empty: a path that is not empty is sent if and only if it is listed, and none is sent twice.
pub find_apks_once :
    (o : Outside)
    → ((n : ℕ) → o.cancel n ≡ false)
    → (lines : List Text) (w : World)
    → ((p : Text) → is_empty p ≡ false → exists p (find_apks o lines w).0.1 ≡ exists p lines)
      × AreDistinct (find_apks o lines w).0.1
unfolding find_apks
find_apks_once o never lines w =
    let sent = send_each_all o never (unseen [] lines) w in
    (
      λ p h. ap (λ (ps : List Text). exists p ps) sent ∙ unseen-exists p [] lines h ∙ ground arith,
      subst AreDistinct (sym sent) (unseen-AreDistinct [] lines),
    )
