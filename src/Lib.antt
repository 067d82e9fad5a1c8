-- ===== src/Lib.antt =====
-- Verification of the core of pop: the retrieval of content for payment, and the payment channels
-- that pay for it.
--
-- Parts of the program and the files that model them (paths from the repository's root):
--
--   * retrieval/deal (types.go, status.go): the parameters of a deal, the states of its two sides and
--     the messages between them. Retrieval/Status and Retrieval/Deal; the payment schedule that
--     NextInterval and IntervalLowerBound walk is in Retrieval/Deal/Schedule.
--   * retrieval/client (fsm.go, events.go, dtsubscriber.go): the state machine of a deal on the side
--     that retrieves. FSMEvents is Retrieval/Client/Rows (where an event leads) and
--     Retrieval/Client/Action (what it does to the state), put together in Retrieval/Client/Machine;
--     StateEntryFuncs is Retrieval/Client/Handlers, one function per handler; the events that a data
--     transfer sends are Retrieval/Client/Subscriber.
--   * retrieval/provider (fsm.go, events.go, dtsubscriber.go): the same for the side that provides,
--     under Retrieval/Provider.
--   * retrieval/validators.go and retrieval/environments.go: Retrieval/Validation says which requests
--     become deals; Retrieval/Revalidator has the table of tracked channels (State), payments (Pay) and
--     the checks on data that was sent (Sent).
--   * payments/store.go: Payments/Voucher and Payments/Info have the records of a channel and the
--     methods of ChannelInfo; Payments/Store and Payments/Store/Ops are the operations of the datastore.
--   * payments/channel.go: Payments/Lanes has the lanes of a channel, Payments/Check which vouchers it
--     takes and how it creates them, Payments/Queue the queue of requests for funds,
--     Payments/Lifecycle how a channel is created and funded, with the routines that wait for the
--     chain, and Payments/Spend how vouchers are submitted and channels settled and collected.
--   * payments/message.go: Payments/Message, with mpoolPush and increaseGas of payments/channel.go.
--   * payments/manager.go: Payments/Manager; its settling and collecting is Payments/Manager/Epoch, its
--     accessors are Payments/Manager/Access.
--   * retrieval/deal/mgr.go and params.go: Retrieval/Offers, the offers and the funds that are kept for
--     a content ID.
--   * exchange/index.go: Exchange/Index, the refs of stored content and the buckets in which they wait
--     for eviction (Exchange/Buckets), and Exchange/Interest, the content of other peers.
--   * exchange/tx.go: Exchange/Tx has a transaction with its entries, how its root is built, read,
--     committed and closed; Exchange/Dag the root node that it reads, with the keys of
--     internal/utils/stat.go; Exchange/Tx/Execute the transfers for an offer; Exchange/Worker the
--     worker that collects offers and says which are executed, one event of its loop after the other.
--   * exchange/exchange.go: handleQuery is Exchange/Query.
--   * exchange/peermgr.go and exchange/regions.go: Exchange/Peers, the peers that are connected and the
--     choice of peers for a dispatch.
--   * exchange/replication.go: Exchange/Replication has the stores and the authorizations of a node, its
--     child Handler the handler of requests, Dispatch the loop that sends requests until enough peers
--     have confirmed, and Pump the queue of indexes to be fetched.
--   * exchange/routing.go: Exchange/Routing, the streams, the queries and the way back of an offer,
--     which Exchange/Routing/Relay follows through a network of hosts.
--   * filecoin/types.go: BigInt and its operations are the integers of Common/Int.
--
-- The parts meet in a payment. The client's SendFunds handler computes an amount and has a voucher
-- created; the provider's Revalidate takes the voucher, and both machines then receive an event
-- that moves them to the next payment interval. Retrieval/Lockstep puts the two sides together.
-- Before a deal, a query spreads by gossip, handleQuery makes an offer and notes it with the offer
-- manager, the offer is relayed to the publisher of the query, the worker of its transaction picks
-- it, and Execute asks the retrieval client for the paths. What a provider then checks a deal
-- against is the offer that it noted.
--
-- How the code is modelled. An entry function triggers at most one event, so it is a function from
-- the state and an environment, which has the answers of the services, to an outcome; a nil
-- dereference is an outcome of its own. Addresses, CIDs, peers and channels are numbers, with 0 for
-- one that is undefined. Machine words keep their wrap-around. A Go map is an association list. An
-- error is its text, without the parts of a text that print addresses or amounts.
--
-- A state of a channel's accessor is the store with the routines that wait for a message; tasks and
-- answers of the chain come as a sequence of events in any order. Payments/Lifecycle/Phase has the
-- machine that an accessor is held against.
--
-- Parameters. The state machine library (go-statemachine) is FsmLibrary of Retrieval/Fsm: a
-- function that sends an event, with its documented laws, which `plain` there satisfies. The chain,
-- the wallet, the store and the data transfer are functions in the environments. Whether two
-- vouchers have equal encodings is a parameter too; that an encoding fails is left out. A Disk says
-- what the datastore refuses and which channel ID the uuid library makes up, an Api what the node
-- and the wallet answer. A LinkSystem (IPLD) is what it loads, a Session what the retrieval client
-- answers to Execute, Services what the data transfer and the multistore answer to a request, and
-- the streams of Exchange/Routing are the results of reading and writing them. Goroutines of the
-- exchange report by events of their loops, in any order. sort.Slice leaves open how elements of
-- one key are ordered; here they keep their order.
--
-- Bounds and fuel. The interval loops of retrieval/deal/types.go run on as much fuel as the current
-- interval plus 3, which is enough whenever the payment interval is positive and no word overflows:
-- each round adds at least 1. OpenStream has fuel for its 6 tries. Execute makes a number of
-- transfers that it fixes before the first. The amounts of a deal assume fewer than 2^63 bytes
-- received, since the code converts to int64.
--
-- Not modelled: in payments, the methods of the manager that only forward, its loop on the clock,
-- and the contexts that cancel a request and the notice of listeners when a message completes; in
-- the exchange, the garbage collection of the index, CleanBlockStore and ListRefs, the files of a
-- transaction (GetFile), Confirm and Triage, which wait for a user, the walks of a DAG, and the
-- wiring in the constructors, Start and StartProviding; the manager of retrieval, which wires the
-- state machines; the node, the wallet, the chain client, the command line and generated encodings,
-- which are input and output around these parts. Other concurrency is left out: every modelled
-- operation holds its lock for its whole body, or for each of the steps that are modelled one by
-- one.
pub mod Common
pub mod Payments
pub mod Exchange
pub mod Retrieval
