-- ===== src/Waits/Counting.antt =====
-- Tests on the requests and on the goroutine, to count who holds the channel and who the snapshot.
use agent_nexus.Prelude.{Bool, true, false, ◌≡◌, refl, arith}
use agent_nexus.Waits.Snapshot.{WaitType}
use agent_nexus.Waits.Requests.{Answer, Request, Waiter}

-- a request as it arrives
abbrev pub is_new : Request → Bool
is_new (Request.reading p) = true
is_new (Request.sweeping p) = true
is_new (Request.sending p) = true
is_new Request.cancelling = true
is_new _ = false

abbrev pub is_delivering : Request → Bool
is_delivering (Request.delivering p) = true
is_delivering _ = false

abbrev pub is_holding : Request → Bool
is_holding (Request.holding st p) = true
is_holding (Request.starting st p) = true
is_holding _ = false

-- a request whose sender was told that the goroutine has the payload
abbrev pub is_delivered : Request → Bool
is_delivered (Request.answered Answer.delivered) = true
is_delivered _ = false

-- a request that started the run again
abbrev pub is_resumed : Request → Bool
is_resumed (Request.answered Answer.resumed) = true
is_resumed _ = false

abbrev pub is_answered : Request → Bool
is_answered (Request.answered a) = true
is_answered _ = false

-- the goroutine has a payload
abbrev pub has_payload : Waiter → Bool
has_payload (Waiter.received p) = true
has_payload (Waiter.clearing p) = true
has_payload (Waiter.continued p) = true
has_payload _ = false

abbrev pub before_register : WaitType → Waiter → Bool
before_register k Waiter.registering = true
before_register WaitType.approval Waiter.marking = true
before_register WaitType.approval Waiter.saving = true
before_register k _ = false

abbrev pub before_save : WaitType → Waiter → Bool
before_save k Waiter.saving = true
before_save WaitType.approval Waiter.marking = true
before_save WaitType.session Waiter.registering = true
before_save k _ = false

-- the entry was taken back by the goroutine that waited
abbrev pub is_reclaimed : Waiter → Bool
is_reclaimed Waiter.reclaiming = true
is_reclaimed Waiter.reclaimed = true
is_reclaimed _ = false

pub is_new-quiet : (r : Request) → is_new r ≡ true → is_delivering r ≡ false
is_new-quiet (Request.reading p) h = refl
is_new-quiet (Request.sweeping p) h = refl
is_new-quiet (Request.sending p) h = refl
is_new-quiet Request.cancelling h = refl
is_new-quiet (Request.finding p) h = ground arith
is_new-quiet (Request.deciding p) h = ground arith
is_new-quiet (Request.delivering p) h = ground arith
is_new-quiet (Request.claiming p) h = ground arith
is_new-quiet (Request.failing p) h = ground arith
is_new-quiet (Request.holding st p) h = ground arith
is_new-quiet (Request.starting st p) h = ground arith
is_new-quiet (Request.answered a) h = ground arith
is_new-quiet Request.stopping h = ground arith
is_new-quiet Request.deleting h = ground arith

pub is_new-untold : (r : Request) → is_new r ≡ true → is_delivered r ≡ false
is_new-untold (Request.reading p) h = refl
is_new-untold (Request.sweeping p) h = refl
is_new-untold (Request.sending p) h = refl
is_new-untold Request.cancelling h = refl
is_new-untold (Request.finding p) h = ground arith
is_new-untold (Request.deciding p) h = ground arith
is_new-untold (Request.delivering p) h = ground arith
is_new-untold (Request.claiming p) h = ground arith
is_new-untold (Request.failing p) h = ground arith
is_new-untold (Request.holding st p) h = ground arith
is_new-untold (Request.starting st p) h = ground arith
is_new-untold (Request.answered a) h = ground arith
is_new-untold Request.stopping h = ground arith
is_new-untold Request.deleting h = ground arith

pub is_new-empty : (r : Request) → is_new r ≡ true → is_holding r ≡ false
is_new-empty (Request.reading p) h = refl
is_new-empty (Request.sweeping p) h = refl
is_new-empty (Request.sending p) h = refl
is_new-empty Request.cancelling h = refl
is_new-empty (Request.finding p) h = ground arith
is_new-empty (Request.deciding p) h = ground arith
is_new-empty (Request.delivering p) h = ground arith
is_new-empty (Request.claiming p) h = ground arith
is_new-empty (Request.failing p) h = ground arith
is_new-empty (Request.holding st p) h = ground arith
is_new-empty (Request.starting st p) h = ground arith
is_new-empty (Request.answered a) h = ground arith
is_new-empty Request.stopping h = ground arith
is_new-empty Request.deleting h = ground arith

pub is_new-unresumed : (r : Request) → is_new r ≡ true → is_resumed r ≡ false
is_new-unresumed (Request.reading p) h = refl
is_new-unresumed (Request.sweeping p) h = refl
is_new-unresumed (Request.sending p) h = refl
is_new-unresumed Request.cancelling h = refl
is_new-unresumed (Request.finding p) h = ground arith
is_new-unresumed (Request.deciding p) h = ground arith
is_new-unresumed (Request.delivering p) h = ground arith
is_new-unresumed (Request.claiming p) h = ground arith
is_new-unresumed (Request.failing p) h = ground arith
is_new-unresumed (Request.holding st p) h = ground arith
is_new-unresumed (Request.starting st p) h = ground arith
is_new-unresumed (Request.answered a) h = ground arith
is_new-unresumed Request.stopping h = ground arith
is_new-unresumed Request.deleting h = ground arith
