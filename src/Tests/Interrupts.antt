-- ===== src/Tests/Interrupts.antt =====
-- Interrupts of the utilities at concrete inputs.
use weron.Prelude.{◌≡◌, refl, true, false, [], ◌∷◌, arith}
use weron.Latency.Gathering.{new_client, run, all_rounds}
use weron.Throughput.{moved, run_client, completed, client_start}
use weron.Throughput.Rounds.{bytes_written}
use weron.Latency.Summary.{sum}
use weron.Cmd.Interrupt.{
  closes_nil, blocked, closed, interrupt_latency, interrupt_throughput, after_close,
  latency_interrupt_closes, throughput_interrupt_blocks,
}

latency_interrupt_closes_example :
    interrupt_latency false
      (run new_client (all_rounds ((128, 10) ∷ (128, 20) ∷ [])))
      true
      false
      closes_nil
    ≡ closed
unfolding sum after_close
latency_interrupt_closes_example =
    latency_interrupt_closes false ((128, 10) ∷ (128, 20) ∷ []) false closes_nil (omega arith)
      (omega arith)

throughput_interrupt_blocks_example :
    interrupt_throughput false
      (run_client 1 client_start (moved 0 ∷ moved 100 ∷ moved 0 ∷ []))
      true
      true
      closes_nil
    ≡ blocked
unfolding completed bytes_written
throughput_interrupt_blocks_example =
    throughput_interrupt_blocks 1 (moved 0 ∷ moved 100 ∷ moved 0 ∷ []) true true closes_nil
      (omega arith) refl
