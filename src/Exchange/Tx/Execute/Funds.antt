-- ===== src/Exchange/Tx/Execute/Funds.antt =====
-- What a run of Execute (exchange/tx.go) that succeeds has asked for and what it leaves of the funds.
use mathlib.Core.List.{append_assoc, append-nil}
use pop.Common.{
  ℕ, zero, suc, ◌≡◌, ◌≢◌, refl, sym, ap, ◌∙◌, arith, Bool, true, false, List, [], ◌∷◌, ◌++◌, Option,
  none, some, get_elem?,
}
use pop.Common.Int.{◌+ℤ◌}
use pop.Common.Result.{Result, ok, err}
use pop.Retrieval.Deal.{Offer}
use pop.Exchange.Index.{Index}
use pop.Exchange.Worker.{TxResult}
use pop.Exchange.Tx.{Tx}
use pop.Exchange.Tx.Execute.{
  Session, Request, Run, Outcome, continues, returns, Choice, path_root, choose, next_root, round,
  rounds,
}
use pop.Exchange.Tx.Execute.Rounds.{OnContinue, left, Round, round-Round}

module _ (session : Session) (tx : Tx) (of : Offer) where
  -- A request for the root that the path at this place has, in the stores at that time.
  abbrev pub OfPath : ℕ → Request → Type 0
  OfPath j q =
      (p : ℕ) × (get_elem? tx.paths j ≡ some p)
      × (idx : Index) × ((path_root session tx of (suc j) p idx).1 ≡ ok q.root)

  -- Requests for so many paths from this place on, one each and in order.
  abbrev pub OfPaths : ℕ → ℕ → List Request → Type 0
  OfPaths j zero [] = Unit
  OfPaths j zero (q ∷ rs) = ⊥
  OfPaths j (suc n) [] = ⊥
  OfPaths j (suc n) (q ∷ rs) = OfPath j q × OfPaths (suc j) n rs

  -- A path that is found leads to a CID that is defined.
  abbrev pub Defined : Type 0
  Defined = (i p : ℕ) (idx : Index) (r : ℕ) → (path_root session tx of i p idx).1 ≡ ok r → r ≢ 0

  abbrev pub IfCommitted : (Run → TxResult → Type 0) → Run × TxResult × Bool → Type 0
  IfCommitted P (s, res, true) = P s res
  IfCommitted P (s, res, false) = Unit

  -- What the rounds for the paths from place j on add to a run.
  abbrev pub Fetched : ℕ → ℕ → Run → Run → TxResult → Type 0
  Fetched j n s s' res =
      (rs : List Request) × OfPaths j n rs
      × (s'.requests ≡ s.requests ++ rs)
      × (left session tx of s' +ℤ res.spent ≡ left session tx of s +ℤ s.final.spent)

  next_root-OfPath :
      (j root r : ℕ) (idx : Index)
      → (next_root session tx of (suc j) root idx).1 ≡ ok r
      → (p : ℕ) × (get_elem? tx.paths j ≡ some p) × (path_root session tx of (suc j) p idx).1 ≡ ok r
  unfolding next_root
  next_root-OfPath j root r idx h = by_path (get_elem? tx.paths j) refl h
    where
      by_path :
          (o : Option ℕ)
          → get_elem? tx.paths j ≡ o
          → (elim o as (λ _. Index × Result ℕ) [
            | none ↦ (idx, err "index out of range")
            | some p ↦ path_root session tx of (suc j) p idx
          ]).1
            ≡ ok r
          → (p : ℕ) × (get_elem? tx.paths j ≡ some p)
            × (path_root session tx of (suc j) p idx).1 ≡ ok r
      by_path none g e = cc
      by_path (some p) g e = (p, g, e)

  known_choice :
      (i : ℕ) (s : Run) (c : Choice)
      → s.root ≢ 0
      → choose session tx of i s ≡ ok c
      → (c.root ≡ s.root) × (c.funds ≡ left session tx of s)
  unfolding choose
  known_choice i s c d h = ground arith

  -- The first of the rounds that are left, with what follows it.
  Round-before :
      (j n : ℕ) (s s' : Run)
      → Defined
      → s.root ≢ 0
      → Round session tx of (suc j) s s'
      → (later : Run × TxResult × Bool) → IfCommitted (Fetched (suc j) n s') later
      → IfCommitted (Fetched j (suc n) s) later
  Round-before j n s s' def d r (s'', res, false) f = tt
  Round-before j n s s' def d (c, h, g, q, is_for, reqs, funds) (s'', res, true)
        (rs, named, more, spent) =
      let (root, known) = known_choice (suc j) s c d h in
      let (p, at, found) = next_root-OfPath j c.root s'.root s.idx g in
      let of_path : OfPath j q = (p, at, s.idx, found ∙ ap ok (sym is_for.0)) in
      (
        q ∷ rs,
        (of_path, named),
        more ∙ ap (λ l. l ++ rs) reqs ∙ append_assoc s.requests (q ∷ []) rs,
        spent ∙ funds ∙ ap (λ x. x +ℤ s.final.spent) known,
      )

  Round-root : (j : ℕ) (s s' : Run) → Defined → Round session tx of (suc j) s s' → s'.root ≢ 0
  Round-root j s s' def r =
      let (p, at, found) = next_root-OfPath j r.0.root s'.root s.idx r.2 in
      def (suc j) p s.idx s'.root found

  pub rounds-Fetched :
      (count n j : ℕ) (s : Run)
      → Defined
      → s.root ≢ 0
      → IfCommitted (Fetched j n s) (rounds session tx of count n (suc j) s)
  unfolding rounds
  rounds-Fetched count zero j s def d = ([], tt, sym (append-nil s.requests), refl)
  rounds-Fetched count (suc n) j s def d =
      after (rounds-Fetched count n (suc j)) (round session tx of count (suc j) s)
        (round-Round session tx of count (suc j) s)
    where
      after :
          ((s' : Run)
            → Defined
            → s'.root ≢ 0
            → IfCommitted (Fetched (suc j) n s') (rounds session tx of count n (suc (suc j)) s'))
          → (o : Outcome) → OnContinue (Round session tx of (suc j) s) o
          → IfCommitted (Fetched j (suc n) s) (elim o [
            | returns s' r ↦ (s', r, false)
            | continues s' ↦ rounds session tx of count n (suc (suc j)) s'
          ])
      after later (returns s' r) h = tt
      after later (continues s') h =
          Round-before j n s s' def d h (rounds session tx of count n (suc (suc j)) s')
            (later s' def (Round-root j s s' def h))
