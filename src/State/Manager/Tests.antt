-- ===== src/State/Manager/Tests.antt =====
-- Runs of `periodicSync` with one manager.
use cruiser.Base.{◌≡◌, refl, arith}
use cruiser.State.Manager.{
  selecting, waiting, spawning, Sync, at_start, fetch, spawn, spawned, done, fail, received, waited,
  Steps, here, next,
}
use cruiser.State.Manager.Progress.{IsBusy, round_complete, error_blocks}

all_well : Steps 1 at_start (record at_start { phase = selecting })
all_well = next (next (next (next (next here fetch) spawn) spawned) done) waited

round_complete_example : (at_start.running ≡ 0) × (at_start.failing ≡ 0) × (at_start.failed ≡ 0)
round_complete_example = round_complete (record at_start { phase = selecting }) all_well refl

abbrev broken : Sync
broken = record { phase = spawning 0; wg = 1; running = 0; failing = 1; failed = 0 }

breaks : Steps 1 at_start broken
breaks = next (next (next here fetch) spawn) fail

abbrev stuck : Sync
stuck = record { phase = waiting; wg = 1; running = 0; failing = 0; failed = 1 }

stays : Steps 1 broken stuck
stays = next (next here spawned) received

error_blocks_example : IsBusy stuck.phase
error_blocks_example = error_blocks broken stuck breaks (omega arith) stays
