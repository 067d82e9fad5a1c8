-- ===== src/Exchange/Replication/Pump.antt =====
-- pumpIndexes of exchange/replication.go: the queue of peers whose index is to be fetched. The loop's
-- variable fetchDone is never nil again after the first fetch.
use mathlib.Core.List.{append_assoc, append-nil}
use pop.Common.{
  ℕ, ◌≡◌, refl, sym, ap, ◌∙◌, Bool, List, [], ◌∷◌, ◌++◌, Option, none, some, if◌then◌else◌,
}

-- nil, a channel to which a fetch of this root will send its result, or a channel whose result was
-- received.
pub data FetchDone : Type 0 where
  unset : FetchDone
  fetching : ℕ → FetchDone
  received : FetchDone

-- The roots in the queue, those that were fetched, and those whose refs were loaded as interests.
pub record Pump : Type 0 where
  pub q : List ℕ
  pub fetch_done : FetchDone
  pub fetched : List ℕ
  pub loaded : List ℕ

pub data Event : Type 0 where
  hey : Option ℕ → Event
  result : Bool → Event

unfoldable pub start : Pump
start = record { q = []; fetch_done = unset; fetched = []; loaded = [] }

unfoldable pub fetch_root : ℕ → Pump → Pump
fetch_root root s = record s { fetch_done = fetching root; fetched = s.fetched ++ (root ∷ []) }

unfoldable pub on_hey : FetchDone → ℕ → Pump → Pump
unfolding fetch_root
on_hey unset root s = fetch_root root s
on_hey (fetching _) root s = record s { q = s.q ++ (root ∷ []) }
on_hey received root s = record s { q = s.q ++ (root ∷ []) }

unfoldable pub fetch_next : List ℕ → Pump → Pump
unfolding fetch_root
fetch_next [] s = record s { fetch_done = received }
fetch_next (root ∷ rest) s = fetch_root root (record s { q = rest })

-- The result comes only from a fetch that is under way.
unfoldable pub on_result : FetchDone → Bool → Pump → Pump
unfolding fetch_next
on_result unset good s = s
on_result received good s = s
on_result (fetching root) good s =
    fetch_next s.q (record s { loaded = s.loaded ++ (if good then root ∷ [] else []) })

unfoldable pub step : Event → Pump → Pump
unfolding on_hey on_result
step (hey none) s = s
step (hey (some root)) s = on_hey s.fetch_done root s
step (result good) s = on_result s.fetch_done good s

unfoldable pub run : List Event → Pump → Pump
unfolding step
run [] s = s
run (e ∷ es) s = run es (step e s)

abbrev pub announced : List Event → List ℕ
announced [] = []
announced (hey none ∷ es) = announced es
announced (hey (some root) ∷ es) = root ∷ announced es
announced (result _ ∷ es) = announced es

abbrev pub held : Pump → List ℕ
held s = s.fetched ++ s.q

-- Before the first fetch the queue is empty.
abbrev Ready : Pump → Type 0
Ready s = (s.fetch_done ≡ unset) → s.q ≡ []

on_hey-held :
    (d : FetchDone) (root : ℕ) (s : Pump)
    → s.fetch_done ≡ d
    → Ready s
    → (held (on_hey d root s) ≡ held s ++ (root ∷ [])) × Ready (on_hey d root s)
unfolding on_hey
on_hey-held unset root s e r = let empty : s.q ≡ [] = r e in (rw empty (simp append-nil), λ h. cc)
on_hey-held (fetching _) root s e r = (rw append_assoc refl, λ h. cc (h, e))
on_hey-held received root s e r = (rw append_assoc refl, λ h. cc (h, e))

on_result-held :
    (d : FetchDone) (good : Bool) (s : Pump)
    → s.fetch_done ≡ d
    → Ready s
    → (held (on_result d good s) ≡ held s) × Ready (on_result d good s)
unfolding on_result
on_result-held unset good s e r = (refl, r)
on_result-held received good s e r = (refl, r)
on_result-held (fetching root) good s e r =
    by_queue s.q (record s { loaded = s.loaded ++ (if good then root ∷ [] else []) }) refl
  where
    by_queue :
        (q : List ℕ) (s' : Pump)
        → s'.q ≡ q
        → (held (fetch_next q s') ≡ s'.fetched ++ s'.q) × Ready (fetch_next q s')
    by_queue [] s' e' = (refl, λ h. cc)
    by_queue (x ∷ rest) s' e' = (rw (e', append_assoc) refl, λ h. cc)

step-held :
    (e : Event) (s : Pump)
    → Ready s
    → (held (step e s) ≡ held s ++ announced (e ∷ [])) × Ready (step e s)
unfolding step
step-held (hey none) s r = (sym (append-nil (held s)), r)
step-held (hey (some root)) s r = on_hey-held s.fetch_done root s refl r
step-held (result good) s r =
    let (same, r') = on_result-held s.fetch_done good s refl r in
    (same ∙ sym (append-nil (held s)), r')

announced-cons :
    (e : Event) (es : List Event) → announced (e ∷ es) ≡ announced (e ∷ []) ++ announced es
announced-cons (hey none) es = refl
announced-cons (hey (some root)) es = refl
announced-cons (result _) es = refl

run-held : (es : List Event) (s : Pump) → Ready s → held (run es s) ≡ held s ++ announced es
unfolding run
run-held [] s r = sym (append-nil (held s))
run-held (e ∷ es) s r =
    let (one, r') = step-held e s r in
    run-held es (step e s) r'
    ∙ ap (λ l. l ++ announced es) one
    ∙ append_assoc (held s) (announced (e ∷ [])) (announced es)
    ∙ ap (λ l. held s ++ l) (sym (announced-cons e es))

-- The indexes that were fetched, followed by those in the queue, are those that were announced, in
-- the order in which they were.
pub run-announced : (es : List Event) → held (run es start) ≡ announced es
unfolding start
run-announced es = run-held es start (λ h. refl)

step-drained :
    (e : Event) (s : Pump)
    → s.fetch_done ≡ received
    → ((step e s).fetch_done ≡ received)
      × ((step e s).fetched ≡ s.fetched)
      × ((step e s).loaded ≡ s.loaded)
unfolding step on_hey on_result
step-drained (hey none) s h = (h, refl, refl)
step-drained (hey (some root)) s h =
    let at = ap (λ d. on_hey d root s) h in
    (ap Pump.fetch_done at ∙ h, ap Pump.fetched at, ap Pump.loaded at)
step-drained (result good) s h =
    let at = ap (λ d. on_result d good s) h in
    (ap Pump.fetch_done at ∙ h, ap Pump.fetched at, ap Pump.loaded at)

run-received :
    (es : List Event) (s : Pump)
    → s.fetch_done ≡ received
    → ((run es s).fetched ≡ s.fetched) × ((run es s).loaded ≡ s.loaded)
unfolding run
run-received [] s h = (refl, refl)
run-received (e ∷ es) s h =
    let (d, f, l) = step-drained e s h in
    let (f', l') = run-received es (step e s) d in (f' ∙ f, l' ∙ l)

-- Once a fetch ends while the queue is empty, no index is fetched or loaded any more: whatever is
-- announced waits in the queue.
pub fetches-drained :
    (root : ℕ) (good : Bool) (es : List Event) (s : Pump)
    → s.fetch_done ≡ fetching root
    → s.q ≡ []
    → ((run (result good ∷ es) s).fetched ≡ s.fetched)
      × ((run (result good ∷ es) s).loaded ≡ s.loaded ++ (if good then root ∷ [] else []))
unfolding run step on_result fetch_next
fetches-drained root good es s d q =
    let before = record s { loaded = s.loaded ++ (if good then root ∷ [] else []) } in
    let at : on_result s.fetch_done good s ≡ record before { fetch_done = received } =
      ap (λ x. on_result x good s) d ∙ ap (λ l. fetch_next l before) q in
    let (f, l) = run-received es (record before { fetch_done = received }) refl in
    (ap (λ x. (run es x).fetched) at ∙ f, ap (λ x. (run es x).loaded) at ∙ l)
