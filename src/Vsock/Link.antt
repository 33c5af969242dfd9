-- ===== src/Vsock/Link.antt =====
-- vsock/stream.go, `writeAll`: the write side of the transport, with the context that a send looks
-- at between its writes.
pub mod Laws
use poprocks.Prelude.{
  ℕ, zero, suc, Bool, true, false, Option, none, some, List, [], ◌∷◌, ◌++◌, take, drop,
  if◌then◌else◌, Bytes,
}
use poprocks.Vsock.Errors.{Error}

-- What one `Write` of the connection does: take at most so many bytes, or take so many and fail.
pub data WriteEvent : Type 0 where
  accept : ℕ → WriteEvent
  refuse : ℕ → Error → WriteEvent

-- What happens while a send waits for its acknowledgement.
pub data WaitEvent : Type 0 where
  ack_received : ℕ → WaitEvent
  ctx_done timer_fired : WaitEvent

pub record Link : Type 0 where
  -- The bytes that the connection has taken.
  pub sent : Bytes
  -- The next writes; behind them every write takes all it is given.
  pub writes : List WriteEvent
  -- How many looks at the context find it live, if it is cancelled at all, and its `Err`.
  pub cancel_after : Option ℕ
  pub reason : Error
  -- What happens in the next waits for an acknowledgement.
  pub waits : List (List WaitEvent)

-- One look at the context: is it done?
unfoldable pub poll : Link → Bool × Link
poll l = elim l.cancel_after [
  | none ↦ (false, l)
  | some zero ↦ (true, l)
  | some (suc k) ↦ (false, record l { cancel_after = some k })
]

-- `writeAll`, by the writes to come.
unfoldable pub write_loop : List WriteEvent → Link → Bytes → Option Error × Link
unfolding poll
write_loop ws l [] = (none, record l { writes = ws })
write_loop [] l (b ∷ p) =
    let (stop, l') = poll l in
    if stop
    then (some l.reason, record l' { writes = [] })
    else (none, record l' { sent = l.sent ++ (b ∷ p); writes = [] })
write_loop (accept k ∷ ws) l (b ∷ p) =
    let (stop, l') = poll l in
    let rest = write_loop ws (record l' { sent = l.sent ++ take k (b ∷ p) }) (drop k (b ∷ p)) in
    if stop then (some l.reason, record l' { writes = accept k ∷ ws }) else rest
write_loop (refuse k e ∷ ws) l (b ∷ p) =
    let (stop, l') = poll l in
    if stop
    then (some l.reason, record l' { writes = refuse k e ∷ ws })
    else (some e, record l' { sent = l.sent ++ take k (b ∷ p); writes = ws })

unfoldable pub write_all : Link → Bytes → Option Error × Link
unfolding write_loop
write_all l p = write_loop l.writes l p
