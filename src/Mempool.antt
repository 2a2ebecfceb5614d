-- ===== src/Mempool.antt =====
-- ingestor/src/mempool.rs: the watcher that brings the daemon's pool into public.mempool_txs.
pub mod Grows
use Prim.Native.Nat.{Ordering}
use Prim.Native.String.{compare}
use block_ex.Prelude.{
  ◌||◌, Bool, true, false, Option, none, some, List, [], ◌∷◌, String, if◌then◌else◌,
}
use block_ex.Result.{Result, ok}
use block_ex.World.{Env, World, M, call, transaction, pure, ◌>>=◌, ◌>>◌}
use block_ex.Store.{requeue_rows}

-- What `recv_multipart` returns: frames, each with its text if it is UTF-8, that the time is up
-- (`EAGAIN`), or another failure.
pub data Event : Type 0 where
  received : List (Option String) → Event
  timed_out : Event
  failed : Event

abbrev is_equal : Ordering → Bool
is_equal Ordering.eq = true
is_equal Ordering.lt = false
is_equal Ordering.gt = false

-- The text of the first frame, or none.
unfoldable pub topic_of : List (Option String) → String
topic_of [] = ""
topic_of (none ∷ frames) = ""
topic_of (some topic ∷ frames) = topic

unfoldable pub is_watched : String → Bool
is_watched topic = is_equal (compare topic "raw_tx") || is_equal (compare topic "raw_block")

-- A failure is logged and forgotten.
unfoldable pub logged : M (Unit {0}) → M (Unit {0})
logged m w = (ok tt, (m w).1)

module _ (env : Env) where
  -- The hashes of the pool are written in one transaction, by the statement of `requeue_rows`.
  unfoldable pub store_pool : List String → M (Unit {0})
  store_pool [] = pure tt
  store_pool (hash ∷ hashes) = transaction env (requeue_rows env (hash ∷ hashes))

  unfoldable pub refresh_from_pool : M (Unit {0})
  refresh_from_pool = do
    hashes ← call (λ n. env.rpc.get_transaction_pool_hashes n)
    store_pool hashes

  unfoldable pub on_event : Event → M (Unit {0})
  unfolding refresh_from_pool
  on_event (received frames) =
      if is_watched (topic_of frames) then logged refresh_from_pool else pure tt
  on_event timed_out = logged refresh_from_pool
  on_event failed = pure tt

  -- The loop, over the events that arrive.
  unfoldable pub watch : List Event → M (Unit {0})
  watch [] = pure tt
  watch (event ∷ events) = do on_event event; watch events

  unfoldable pub run : List Event → M (Unit {0})
  unfolding watch
  run events = do logged refresh_from_pool; watch events
