-- ===== src/Channels.antt =====
-- internal/eval/eval_concurrency.go: channels, as the steps of the goroutines that use one.
pub mod Order
use kolang.Prelude.{ℕ, ◌<◌, ◌≡◌, List, [], ◌∷◌, ◌++◌, Bool, true, false, length}

module _ (V : Type 0) where
  -- `Channel`: what is buffered, the oldest value first, and the capacity of `ch`, and whether
  -- `closed` is set and `done` closed. `pending` are the values of the sends that wait in their
  -- `select`.
  pub record Channel : Type 0 where
    pub buffer : List V
    pub capacity : ℕ
    pub closed : Bool
    pub pending : List V

-- `evalChannelLit`, with the size that it computed.
unfoldable pub new_channel : (V : Type 0) → ℕ → Channel V
new_channel V size = record { buffer = []; capacity = size; closed = false; pending = [] }

-- What a step shows of itself: the values of sends that begin, that are taken from their senders and
-- that are given to receivers, the nil of a drained channel, and the exceptions.
pub data Event (V : Type 0) : Type 0 where
  asked : V → Event V
  refused : Event V
  took : V → Event V
  handed : V → Event V
  gave_up : V → Event V
  gave : V → Event V
  gave_nil : Event V
  closing : Event V
  closing_refused : Event V

-- A step of a goroutine on the channel.
pub data Step (V : Type 0) : Channel V → Event V → Channel V → Type 0 where
  -- `sendChannel` finds `closed` not set, and enters its `select`.
  begin_send :
      {c : Channel V} (v : V)
      → c.closed ≡ false
      → Step V c (asked v) (record c { pending = c.pending ++ (v ∷ []) })
  -- `sendChannel` finds it set, and raises.
  refuse_send : {c : Channel V} → c.closed ≡ true → Step V c refused c
  -- A waiting send has room in the buffer, whether or not `done` is closed as well.
  deliver :
      {c : Channel V} (before : List V) (v : V) (after : List V)
      → c.pending ≡ before ++ (v ∷ after)
      → length c.buffer < c.capacity
      → Step V c (took v) (record c { buffer = c.buffer ++ (v ∷ []); pending = before ++ after })
  -- A waiting send meets a waiting receiver.
  hand_over :
      {c : Channel V} (before : List V) (v : V) (after : List V)
      → c.pending ≡ before ++ (v ∷ after)
      → c.buffer ≡ []
      → Step V c (handed v) (record c { pending = before ++ after })
  -- A waiting send sees `done` closed, and raises.
  give_up :
      {c : Channel V} (before : List V) (v : V) (after : List V)
      → c.pending ≡ before ++ (v ∷ after)
      → c.closed ≡ true
      → Step V c (gave_up v) (record c { pending = before ++ after })
  -- `recvChannel` takes a buffered value, in either of its two `select`s.
  receive :
      {c : Channel V} (v : V) (rest : List V)
      → c.buffer ≡ v ∷ rest
      → Step V c (gave v) (record c { buffer = rest })
  -- `recvChannel` sees `done` closed and nothing buffered, and gives nil.
  drained : {c : Channel V} → c.closed ≡ true → c.buffer ≡ [] → Step V c gave_nil c
  -- `closeChannel`, and the exception that a second one raises.
  close : {c : Channel V} → c.closed ≡ false → Step V c closing (record c { closed = true })
  close_again : {c : Channel V} → c.closed ≡ true → Step V c closing_refused c

-- The steps of all goroutines, in whatever order they come.
pub data Run (V : Type 0) : Channel V → List (Event V) → Channel V → Type 0 where
  run_nil : {c : Channel V} → Run V c [] c
  run_cons :
      {c d e : Channel V} {event : Event V} {events : List (Event V)}
      → Step V c event d
      → Run V d events e
      → Run V c (event ∷ events) e
