-- ===== src/Exchange/Replication/Dispatch/Authorized.antt =====
-- The peers that Dispatch of exchange/replication.go has sent a request to may pull the content.
use pop.Common.{
  ℕ, ◌+◌, ◌≡◌, ◌⊎◌, refl, ap, ◌∙◌, arith, true, List, [], ◌∷◌, ◌++◌, Option, none, some, ltb, inl,
  inr, All, All-append,
}
use pop.Common.Assoc.{find, put, find-put_same}
use pop.Common.Result.{ok}
use pop.Exchange.Buckets.{is_in, add}
use pop.Exchange.Buckets.Entries.{is_in-add, is_in-last, is_in-add_other}
use pop.Common.Int.{pos, ◌-ℤ◌}
use pop.Exchange.Peers.{PeerMgr, peers}
use pop.Exchange.Replication.{Request, authorize_pull, validate_pull}
use pop.Exchange.Replication.Dispatch.{
  DispatchOptions, State, Event, timer, confirms, authorize_all, requests, confirm, start, step,
  run,
}
use pop.Exchange.Replication.Dispatch.Bounds.{by_done}

abbrev peers_for : List (ℕ × List ℕ) → ℕ → List ℕ
peers_for pulls k = elim (find k pulls) [ none ↦ [] | some set ↦ set ]

abbrev Authorized : ℕ → List (ℕ × List ℕ) → ℕ → Type 0
Authorized root pulls p = is_in p (peers_for pulls root) ≡ true

abbrev grown : ℕ → Option (List ℕ) → List ℕ
grown p none = p ∷ []
grown p (some set) = add p set

find-authorize_pull :
    (root p : ℕ) (pulls : List (ℕ × List ℕ))
    → find root (authorize_pull root p pulls) ≡ some (grown p (find root pulls))
unfolding authorize_pull
find-authorize_pull root p pulls = by_set (find root pulls)
  where
    by_set :
        (o : Option (List ℕ))
        → find root
            (elim o [ some set ↦ put root (add p set) pulls | none ↦ put root (p ∷ []) pulls ])
          ≡ some (grown p o)
    by_set none = find-put_same root (p ∷ []) pulls
    by_set (some set) = find-put_same root (add p set) pulls

-- Authorizing a peer takes it in and keeps those that were authorized.
authorize_pull-Authorized :
    (root p q : ℕ) (pulls : List (ℕ × List ℕ))
    → (q ≡ p) ⊎ Authorized root pulls q
    → Authorized root (authorize_pull root p pulls) q
authorize_pull-Authorized root p q pulls h =
    ap (λ (o : Option (List ℕ)). is_in q (elim o [ none ↦ [] | some set ↦ set ]))
      (find-authorize_pull root p pulls)
    ∙ by_set (find root pulls) h
  where
    by_set :
        (o : Option (List ℕ))
        → (q ≡ p) ⊎ (is_in q (elim o [ none ↦ [] | some set ↦ set ]) ≡ true)
        → is_in q (grown p o) ≡ true
    by_set none (inl e) = rw e (is_in-last p [])
    by_set none (inr k) = unfold is_in in cc k
    by_set (some set) (inl e) = rw e (is_in-add p set)
    by_set (some set) (inr k) = is_in-add_other q p set k

authorize_all-keeps :
    (root q : ℕ) (ps : List ℕ) (pulls : List (ℕ × List ℕ))
    → Authorized root pulls q
    → Authorized root (authorize_all root ps pulls) q
unfolding authorize_all
authorize_all-keeps root q [] pulls h = h
authorize_all-keeps root q (p ∷ ps) pulls h =
    authorize_all-keeps root q ps (authorize_pull root p pulls)
      (authorize_pull-Authorized root p q pulls (inr h))

keeps_All :
    (root : ℕ) (qs ps : List ℕ) (pulls : List (ℕ × List ℕ))
    → All (Authorized root pulls) qs
    → All (Authorized root (authorize_all root ps pulls)) qs
keeps_All root [] ps pulls h = tt
keeps_All root (q ∷ qs) ps pulls h =
    (authorize_all-keeps root q ps pulls h.0, keeps_All root qs ps pulls h.1)

authorize_all-All :
    (root : ℕ) (ps : List ℕ) (pulls : List (ℕ × List ℕ))
    → All (Authorized root (authorize_all root ps pulls)) ps
unfolding authorize_all
authorize_all-All root [] pulls = tt
authorize_all-All root (p ∷ ps) pulls =
    let pulls' = authorize_pull root p pulls in
    (
      authorize_all-keeps root p ps pulls' (authorize_pull-Authorized root p p pulls (inl refl)),
      authorize_all-All root ps pulls',
    )

-- Every peer that a request was sent to is authorized.
abbrev SentAuthorized : DispatchOptions → State → Type 0
SentAuthorized opt s = All (Authorized opt.root s.pulls) s.sent

requests-SentAuthorized :
    (opt : DispatchOptions) (pm : PeerMgr) (s : State)
    → SentAuthorized opt s
    → SentAuthorized opt (requests opt pm s)
unfolding requests
requests-SentAuthorized opt pm s h =
    let chosen = peers (pos opt.rf -ℤ pos s.n) opt.rgs s.rcv opt.targets pm in
    by_done (SentAuthorized opt) (ltb opt.backoff_attempts s.attempt) (record s { done = true })
      (record s {
        attempt = s.attempt + 1;
        rcv = s.rcv ++ chosen;
        pulls = authorize_all opt.root chosen s.pulls;
        sent = s.sent ++ chosen;
      })
      (λ d. h)
      (λ d.
        All-append (Authorized opt.root (authorize_all opt.root chosen s.pulls)) s.sent chosen
          (keeps_All opt.root s.sent chosen s.pulls h, authorize_all-All opt.root chosen s.pulls))

run-SentAuthorized :
    (opt : DispatchOptions) (es : List Event) (s : State)
    → SentAuthorized opt s
    → SentAuthorized opt (run opt es s)
unfolding run step confirm
run-SentAuthorized opt [] s h = h
run-SentAuthorized opt (timer pm ∷ es) s h = run-SentAuthorized opt es (step opt (timer pm) s) (
    by_done (SentAuthorized opt) s.done s (requests opt pm s) (λ d. h)
      (λ d. requests-SentAuthorized opt pm s h))
run-SentAuthorized opt (confirms r ∷ es) s h =
    run-SentAuthorized opt es (step opt (confirms r) s)
      (by_done (SentAuthorized opt) s.done s (confirm opt r s) (λ d. h) (λ d. h))

-- What ValidatePull answers to such a peer.
abbrev pub Admitted : List (ℕ × List ℕ) → Request → ℕ → ℕ → Type 0
Admitted pulls req root p = validate_pull pulls (some req) root p ≡ ok tt

Authorized-Admitted :
    (pulls : List (ℕ × List ℕ)) (req : Request) (root p : ℕ)
    → Authorized root pulls p
    → Admitted pulls req root p
unfolding validate_pull
Authorized-Admitted pulls req root p h = ground arith

All-Admitted :
    (pulls : List (ℕ × List ℕ)) (req : Request) (root : ℕ) (ps : List ℕ)
    → All (Authorized root pulls) ps
    → All (Admitted pulls req root) ps
All-Admitted pulls req root [] h = tt
All-Admitted pulls req root (p ∷ ps) h =
    (Authorized-Admitted pulls req root p h.0, All-Admitted pulls req root ps h.1)

-- Whatever confirmations and timers came, a pull of the content by any peer that Dispatch has sent a
-- request to is admitted.
pub sent-Admitted :
    (opt : DispatchOptions) (pm : PeerMgr) (pulls : List (ℕ × List ℕ)) (es : List Event)
    (req : Request)
    → let s = run opt es (start opt pm pulls) in All (Admitted s.pulls req opt.root) s.sent
sent-Admitted opt pm pulls es req =
    let s = run opt es (start opt pm pulls) in
    All-Admitted s.pulls req opt.root s.sent (
      run-SentAuthorized opt es (start opt pm pulls)
        (unfold start in requests-SentAuthorized opt pm _ tt))
