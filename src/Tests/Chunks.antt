-- ===== src/Tests/Chunks.antt =====
-- A value in chunks (link/transport/channel.cc) on small inputs.
use yacl_r.Base.{◌-◌, false, [], ◌∷◌, arith, Bytes, replicate, length-replicate}
use yacl_r.Channel.Chunks
use yacl_r.Channel.Chunks.Order
use yacl_r.Channel.Chunks.Window.{SendChunkedWindow}

abbrev five : Bytes
five = 1 ∷ 2 ∷ 3 ∷ 4 ∷ 5 ∷ []

-- Chunks of 2 bytes, the last first, and one of them twice.
add_chunks-Reassembles_example :
    Order.Reassembles 2 five (omega arith) (λ k. replicate k 0) (2 ∷ 0 ∷ 2 ∷ 1 ∷ [])
unfolding Chunks.num_chunks
add_chunks-Reassembles_example =
    Order.add_chunks-Reassembles 2 five (omega arith) (λ k. replicate k 0) (2 ∷ 0 ∷ 2 ∷ 1 ∷ [])
      (λ k. length-replicate k 0) (omega arith)
      (omega arith, (omega arith, (omega arith, (omega arith, tt))))

abbrev busy : SendChunkedWindow
busy = record { parallel_limit = 2; running_push = 2; async_exception = false }

abbrev one_done : SendChunkedWindow → SendChunkedWindow
one_done w = record w { running_push = w.running_push - 1 }
