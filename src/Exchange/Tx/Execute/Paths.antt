-- ===== src/Exchange/Tx/Execute/Paths.antt =====
-- The transfers of an execution of exchange/tx.go as a whole, by what is known of the first path.
use mathlib.Core.Path.{subst}
use pop.Common.{
  ℕ, suc, ◌≡◌, ◌≢◌, refl, sym, ap, ◌∙◌, arith, Bool, true, false, List, [], ◌∷◌, ◌++◌, Option, none,
  some, length, ◌==◌, if◌then◌else◌,
}
use pop.Common.Int.{◌+ℤ◌, +ℤ_zero}
use pop.Common.Result.{Result, ok, err}
use pop.Common.Text.{String}
use pop.Retrieval.Deal.{Offer}
use pop.Retrieval.Offers.{Mgr, get_funds_for_cid}
use pop.Exchange.Index.{Index}
use pop.Exchange.Worker.{TxResult}
use pop.Exchange.Tx.{Tx, star}
use pop.Exchange.Tx.Execute.{
  Session, Request, Run, Outcome, continues, returns, Choice, all_nodes, entries_only, path_root,
  choose, round, rounds, begin, plan, execute, first_choice, follow, count_of, plan_of, from_root,
}
use pop.Exchange.Tx.Execute.Rounds.{OnContinue, left, IsFor, Round, round-Round}
use pop.Exchange.Tx.Execute.Funds.{OfPaths, Defined, IfCommitted, Fetched, rounds-Fetched}

ok_inj {ℓ} : {A : Type ℓ} (a b : A) → ok a ≡ ok b → a ≡ b
ok_inj a b h = cc

module _ (session : Session) (tx : Tx) (of : Offer) where
  -- A first request, for this choice, and then one for each of so many paths; what is left of the
  -- funds makes up for what was spent.
  abbrev pub Whole : Choice → ℕ → Run → TxResult → Type 0
  Whole c n s res =
      (q : Request) × IsFor session tx of c.root c q
      × (rs : List Request) × OfPaths session tx of 0 n rs
      × (s.requests ≡ q ∷ rs)
      × (left session tx of s +ℤ res.spent ≡ c.funds)

  first-Whole :
      (count n : ℕ) (deals : Mgr) (idx : Index) (root : ℕ) (c : Choice)
      → Defined session tx of
      → choose session tx of 0 (begin session tx of deals idx root) ≡ ok c
      → c.root ≢ 0
      → IfCommitted session tx of
          (Whole c n)
          (rounds session tx of count (suc n) 0 (begin session tx of deals idx root))
  unfolding rounds
  first-Whole count n deals idx root c def h d =
      after (round session tx of count 0 start) (round-Round session tx of count 0 start)
    where
      start : Run
      start = begin session tx of deals idx root

      combine :
          (s' : Run) (later : Run × TxResult × Bool)
          → Round session tx of 0 start s'
          → IfCommitted session tx of (Fetched session tx of 0 n s') later
          → IfCommitted session tx of (Whole c n) later
      combine s' (s'', res, false) r f = tt
      combine s' (s'', res, true) (c', h', g, q, is_for, reqs, funds) (rs, named, more, spent) =
          let same : c' ≡ c = ok_inj c' c (sym h' ∙ h) in
          let root' : s'.root ≡ c'.root = sym (ok_inj c'.root s'.root g) in
          (
            q,
            subst (λ x. IsFor session tx of x.root x q) same
                (subst (λ x. IsFor session tx of x c' q) root' is_for),
            rs,
            named,
            more ∙ ap (λ l. l ++ rs) reqs,
            spent ∙ funds ∙ +ℤ_zero c'.funds ∙ ap Choice.funds same,
          )

      after :
          (o : Outcome)
          → OnContinue (Round session tx of 0 start) o
          → IfCommitted session tx of (Whole c n) (elim o [
            | returns s' r ↦ (s', r, false)
            | continues s' ↦ rounds session tx of count n 1 s'
          ])
      after (returns s' r) r' = tt
      after (continues s') r = combine s' (rounds session tx of count n 1 s') r (
          rounds-Fetched session tx of count n 0 s' def (
            subst (λ x. x ≢ 0)
              (ap Choice.root (ok_inj c r.0 (sym h ∙ r.1)) ∙ ok_inj r.0.root s'.root r.2) d))

  -- The execution once its plan is known.
  planned :
      (n root : ℕ) (deals : Mgr) (idx idx' : Index) (c : Choice) (s : Run) (res : TxResult)
      → Defined session tx of
      → plan session tx of idx ≡ (idx', suc n, root)
      → choose session tx of 0 (begin session tx of deals idx' root) ≡ ok c
      → c.root ≢ 0
      → execute session tx of deals idx ≡ (s, res, true)
      → Whole c n s res
  unfolding execute
  planned n root deals idx idx' c s res def p h d e =
      by_addr (session.addr_error of)
        (ap (follow session tx of deals idx (session.addr_error of)) (sym p) ∙ e)
    where
      by_addr :
          (o : Option String)
          → follow session tx of deals idx o (idx', suc n, root) ≡ (s, res, true)
          → Whole c n s res
      by_addr (some x) e' = cc (ap (λ r. r.2) e')
      by_addr none e' =
          subst (IfCommitted session tx of (Whole c n)) e'
            (first-Whole (suc n) n deals idx' root c def h d)

  count_of-err :
      (n : ℕ) (found : Index × Result ℕ) (e : String)
      → found.1 ≡ err e
      → count_of session tx of n found ≡ (found.0, suc n, 0)
  unfolding count_of
  count_of-err n (idx, ok r) e h = cc
  count_of-err n (idx, err _) e h = refl

  count_of-ok :
      (n : ℕ) (found : Index × Result ℕ) (r : ℕ)
      → found.1 ≡ ok r
      → count_of session tx of n found ≡ (found.0, n, r)
  unfolding count_of
  count_of-ok n (idx, ok r') r h = ap (λ x. (idx, n, x)) (ok_inj r' r h)
  count_of-ok n (idx, err _) r h = cc

  plan-path :
      (p : ℕ) (ps : List ℕ) (idx : Index)
      → tx.paths ≡ p ∷ ps
      → (p == star) ≡ false
      → plan session tx of idx
        ≡ count_of session tx of (suc (length ps)) (path_root session tx of 0 p idx)
  unfolding plan plan_of
  plan-path p ps idx at star? =
      ap (λ l. plan_of session tx of l idx) at
      ∙ ap
          (λ b.
            if b
            then (idx, 1, 0)
            else count_of session tx of (suc (length ps)) (path_root session tx of 0 p idx))
          star?

  choose-path :
      (p : ℕ) (ps : List ℕ) (deals : Mgr) (idx : Index)
      → tx.paths ≡ p ∷ ps
      → (p == star) ≡ false
      → choose session tx of 0 (begin session tx of deals idx 0)
        ≡ ok (first_choice session tx of entries_only)
  unfolding choose from_root
  choose-path p ps deals idx at star? =
      ap (from_root session tx of 0) at
      ∙ ap (λ b. ok (first_choice session tx of (if b then all_nodes else entries_only))) star?

  choose-known :
      (r : ℕ) (deals : Mgr) (idx : Index)
      → r ≢ 0
      → choose session tx of 0 (begin session tx of deals idx r)
        ≡ ok (record { root = r; selector = all_nodes; funds = get_funds_for_cid deals tx.root })
  unfolding choose
  choose-known r deals idx d = ground arith

  -- The first path is not known: an execution that succeeds has asked for the entries of the root,
  -- paid from the price of the offer, and then for each path in order. What is left of the price makes up
  -- for what was spent. A path that is found leads to a defined CID.
  pub execute-unknown_path :
      (p : ℕ) (ps : List ℕ) (e : String) (deals : Mgr) (idx : Index) (s : Run) (res : TxResult)
      → Defined session tx of
      → tx.root ≢ 0
      → tx.paths ≡ p ∷ ps
      → (p == star) ≡ false
      → (path_root session tx of 0 p idx).1 ≡ err e
      → execute session tx of deals idx ≡ (s, res, true)
      → Whole (first_choice session tx of entries_only) (suc (length ps)) s res
  execute-unknown_path p ps e deals idx s res def d at star? missing done =
      let found = path_root session tx of 0 p idx in
      planned (suc (length ps)) 0 deals idx found.0 (first_choice session tx of entries_only) s res
        def (plan-path p ps idx at star? ∙ count_of-err (suc (length ps)) found e missing)
        (choose-path p ps deals found.0 at star?) d done

  -- There are at least two paths, and the first is not `*` and is known: an execution that succeeds has
  -- asked for the root of the first path, then once more for the first path, and so on in order up to
  -- the path before the last place. There is no request for the path at the last place. A path that is
  -- found leads to a defined CID.
  pub execute-known_path :
      (p q : ℕ) (ps : List ℕ) (r : ℕ) (deals : Mgr) (idx : Index) (s : Run) (res : TxResult)
      → Defined session tx of
      → tx.paths ≡ p ∷ q ∷ ps
      → (p == star) ≡ false
      → (path_root session tx of 0 p idx).1 ≡ ok r
      → execute session tx of deals idx ≡ (s, res, true)
      → Whole
          (record { root = r; selector = all_nodes; funds = get_funds_for_cid deals tx.root })
          (suc (length ps))
          s
          res
  execute-known_path p q ps r deals idx s res def at star? known done =
      let found = path_root session tx of 0 p idx in
      let d : r ≢ 0 = def 0 p idx r known in
      planned (suc (length ps)) r deals idx found.0 _ s res def
        (plan-path p (q ∷ ps) idx at star? ∙ count_of-ok (suc (suc (length ps))) found r known)
        (choose-known r deals found.0 d) d done

  -- Without paths an execution that succeeds has made one request, for the entries of the root only.
  pub execute-no_paths :
      (deals : Mgr) (idx : Index) (s : Run) (res : TxResult)
      → Defined session tx of
      → tx.root ≢ 0
      → tx.paths ≡ []
      → execute session tx of deals idx ≡ (s, res, true)
      → Whole (first_choice session tx of entries_only) 0 s res
  unfolding plan plan_of choose from_root
  execute-no_paths deals idx s res def d at done =
      planned 0 0 deals idx idx (first_choice session tx of entries_only) s res def
        (ap (λ l. plan_of session tx of l idx) at) (ap (from_root session tx of 0) at) d done
