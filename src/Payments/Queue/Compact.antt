-- ===== src/Payments/Queue/Compact.antt =====
-- filterQueue of payments/channel.go against the list of active requests.
use mathlib.Core.List.{append_assoc, append-nil}
use pop.Common.{
  ℕ, suc, ◌≡◌, refl, sym, ◌∙◌, ap, true, false, List, [], ◌∷◌, ◌++◌, some, length, get_elem?,
  length-append, inl, inr, Bool-cases, if◌then◌else◌, arith,
}
use pop.Payments.Queue.{FundsReq, set, take, compact, filter_queue}

-- The active requests in order.
unfoldable pub active_of : List FundsReq → List FundsReq
active_of [] = []
active_of (r ∷ rs) = let rest = active_of rs in if r.active then r ∷ rest else rest

get_elem?-append :
    (xs ys : List FundsReq) (r : FundsReq) → get_elem? (xs ++ (r ∷ ys)) (length xs) ≡ some r
get_elem?-append [] ys r = refl
get_elem?-append (x ∷ xs) ys r = get_elem?-append xs ys r

set-append :
    (xs ys : List FundsReq) (x r : FundsReq) → set (xs ++ (x ∷ ys)) (length xs) r ≡ xs ++ (r ∷ ys)
unfolding set
set-append [] ys x r = refl
set-append (y ∷ xs) ys x r = ap (λ l. y ∷ l) (set-append xs ys x r)

take-append : (xs ys : List FundsReq) → take (length xs) (xs ++ ys) ≡ xs
unfolding take
take-append [] ys = refl
take-append (x ∷ xs) ys = ap (λ l. x ∷ l) (take-append xs ys)

-- What is kept so far, what was passed over, and what is still to be read.
abbrev kept_of : ℕ × List FundsReq → List FundsReq
kept_of p = take p.0 p.1

compact-keep :
    (n k i : ℕ) (q : List FundsReq) (r : FundsReq)
    → get_elem? q k ≡ some r
    → r.active ≡ true
    → compact (suc n) k i q ≡ compact n (suc k) (suc i) (set q i r)
unfolding compact
compact-keep n k i q r got is_active = ground arith

compact-drop :
    (n k i : ℕ) (q : List FundsReq) (r : FundsReq)
    → get_elem? q k ≡ some r
    → r.active ≡ false
    → compact (suc n) k i q ≡ compact n (suc k) i q
unfolding compact
compact-drop n k i q r got is_active = ground arith

abbrev one : FundsReq → List FundsReq
one r = r ∷ []

shift : (xs ys : List FundsReq) (r : FundsReq) → xs ++ (r ∷ ys) ≡ (xs ++ one r) ++ ys
shift xs ys r = sym (append_assoc xs (one r) ys)

-- What was passed over after an active request has been moved to the front.
abbrev passed_after : List FundsReq → FundsReq → List FundsReq
passed_after [] r = []
passed_after (x ∷ xs) r = xs ++ one r

set-move :
    (kept passed rest : List FundsReq) (r : FundsReq)
    → set ((kept ++ passed) ++ (r ∷ rest)) (length kept) r
      ≡ ((kept ++ one r) ++ passed_after passed r) ++ rest
set-move kept [] rest r =
    rw (append-nil kept, append-nil (kept ++ one r)) (set-append kept rest r r ∙ shift kept rest r)
set-move kept (x ∷ xs) rest r =
    rw
      (
        append_assoc kept (x ∷ xs) (r ∷ rest),
        append_assoc (kept ++ one r) (xs ++ one r) rest,
        append_assoc xs (one r) rest,
      )
      (set-append kept (xs ++ (r ∷ rest)) x r ∙ shift kept (xs ++ (r ∷ rest)) r)

length-move :
    (kept passed : List FundsReq) (r : FundsReq)
    → suc (length (kept ++ passed)) ≡ length ((kept ++ one r) ++ passed_after passed r)
length-move kept [] r =
    omega
      (arith, length-append kept [], length-append (kept ++ one r) [], length-append kept (one r))
length-move kept (x ∷ xs) r = omega (
  arith,
  length-append kept (x ∷ xs),
  length-append (kept ++ one r) (xs ++ one r),
  length-append kept (one r),
  length-append xs (one r),
)

compact-active :
    (kept passed rest : List FundsReq) (k i : ℕ) (q : List FundsReq)
    → q ≡ (kept ++ passed) ++ rest
    → k ≡ length (kept ++ passed)
    → i ≡ length kept
    → kept_of (compact (length rest) k i q) ≡ kept ++ active_of rest
unfolding active_of compact
compact-active kept passed [] k i q eq ek ei =
    base (rw (ei, eq, append_assoc kept passed []) (take-append kept (passed ++ [])))
  where
    compact-end : kept_of (compact 0 k i q) ≡ take i q
    compact-end = refl

    base : take i q ≡ kept → kept_of (compact 0 k i q) ≡ kept ++ []
    base h = compact-end ∙ h ∙ sym (append-nil kept)
compact-active kept passed (r ∷ rest) k i q eq ek ei =
    let got : get_elem? q k ≡ some r = rw (eq, ek) (get_elem?-append (kept ++ passed) rest r) in
    elim (Bool-cases r.active) [
      | inl on ↦
          ap kept_of (compact-keep (length rest) k i q r got on)
          ∙ compact-active (kept ++ one r) (passed_after passed r) rest (suc k) (suc i) (set q i r)
              (rw (eq, ei) (set-move kept passed rest r)) (rw ek (length-move kept passed r))
              (omega (arith, ei, length-append kept (one r)))
          ∙ append_assoc kept (one r) (active_of rest)
          ∙ ap (λ l. kept ++ l) (rw on refl)
      | inr off ↦
          ap kept_of (compact-drop (length rest) k i q r got off)
          ∙ compact-active kept (passed ++ one r) rest (suc k) i q
              (eq
                ∙ shift (kept ++ passed) rest r
                ∙ ap (λ l. l ++ rest) (append_assoc kept passed (one r)))
              (omega (
                arith,
                ek,
                length-append kept passed,
                length-append kept (passed ++ one r),
                length-append passed (one r),
              ))
              ei
          ∙ ap (λ l. kept ++ l) (rw off refl)
    ]

-- The in-place loop of filterQueue keeps exactly the active requests, in their order.
pub filter_queue-active : (queue : List FundsReq) → filter_queue queue ≡ active_of queue
unfolding filter_queue
filter_queue-active queue = compact-active [] [] queue 0 0 queue refl refl refl
