-- ===== src/Server/Sink/Handle.antt =====
-- crates/perfweave-server/src/store/sink.rs, `Sink`: the handle that the other parts send by. The channel is
-- a parameter; a try that fails gives the message back, as the library documents.
use perf_weave.Base.{ℕ, ◌≡◌, ap, if◌then◌else◌, Bool, ◌⊎◌, inl, inr, Option, none, some}
use perf_weave.Base.Text.{Text, codes}
use perf_weave.Proto.{Batch, KernelSol}
use perf_weave.Server.Sink.Rows.{SpikeRow}
use perf_weave.Server.Sink.Loop.{SinkMsg}

pub data TrySendError {ℓ} (A : Type ℓ) : Type ℓ where
  full : A → TrySendError A
  closed : A → TrySendError A

-- A push that panics has reached what the code calls unreachable.
pub data Push : Type 0 where
  pushed : Push
  refused : TrySendError Batch → Push
  unreachable : Push

abbrev pub push_of : Option (TrySendError SinkMsg) → Push
push_of none = pushed
push_of (some (full (SinkMsg.batch b))) = refused (full b)
push_of (some (full (SinkMsg.kernel_sol node_id sol))) = unreachable
push_of (some (full (SinkMsg.spike row))) = unreachable
push_of (some (closed (SinkMsg.batch b))) = refused (closed b)
push_of (some (closed (SinkMsg.kernel_sol node_id sol))) = unreachable
push_of (some (closed (SinkMsg.spike row))) = unreachable

module _ {Sender : Type 0} (try_send : Sender → SinkMsg → Sender × Option (TrySendError SinkMsg))
    (send : Sender → SinkMsg → Sender × Bool) where
  -- The capacity of the channel that `spawn` makes.
  abbrev pub spawn : (ℕ → Sender) → Sender
  spawn channel = channel 256

  unfoldable pub try_push : Sender → Batch → Sender × Push
  try_push tx b = let r = try_send tx (SinkMsg.batch b) in (r.0, push_of r.1)

  -- The error of a send that waits, `false` for a closed channel.
  abbrev pub with_context : Text → Sender × Bool → Sender × Option Text
  with_context what r = (r.0, if r.1 then none else some what)

  unfoldable pub push : Sender → Batch → Sender × Option Text
  push tx b =
      with_context (codes "sink channel closed; server is shutting down")
        (send tx (SinkMsg.batch b))

  unfoldable pub push_kernel_sol : Sender → ℕ → KernelSol → Sender × Option Text
  push_kernel_sol tx node_id sol =
      with_context (codes "sink channel closed") (send tx (SinkMsg.kernel_sol node_id sol))

  unfoldable pub push_spike : Sender → SpikeRow → Sender × Option Text
  push_spike tx row = with_context (codes "sink channel closed") (send tx (SinkMsg.spike row))

  -- If a failed try gives the message back, a push is taken or gives the batch back, and never panics.
  pub try_push-refused :
      (tx : Sender) (b : Batch)
      → let m = SinkMsg.batch b in
        ((try_send tx m).1 ≡ none)
          ⊎ (((try_send tx m).1 ≡ some (full m)) ⊎ ((try_send tx m).1 ≡ some (closed m)))
        → ((try_push tx b).1 ≡ pushed)
          ⊎ (((try_push tx b).1 ≡ refused (full b)) ⊎ ((try_push tx b).1 ≡ refused (closed b)))
  unfolding try_push
  try_push-refused tx b (inl h) = inl (ap push_of h)
  try_push-refused tx b (inr (inl h)) = inr (inl (ap push_of h))
  try_push-refused tx b (inr (inr h)) = inr (inr (ap push_of h))
