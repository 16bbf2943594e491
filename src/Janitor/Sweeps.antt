-- ===== src/Janitor/Sweeps.antt =====
-- janitor/withdraw.go and janitor/partition.go: the sweep of stuck withdrawals and the roll of the
-- monthly partitions, each once in a transaction, with the line that it logs.
use core_wallet.Prelude.{
  ℕ, String, Bool, ◌&&◌, ◌||◌, Option, none, some, List, [], ◌∷◌, ltb, ◌==◌, if◌then◌else◌,
}
use core_wallet.Prelude.Ints.{ℤ, is_positive}
use core_wallet.Errors.{GoError, nil}
use core_wallet.Janitor.{
  Jobs, Entry, Level, debug, info, warn, error, Made, rejected, checked, validate_config,
}

pub record Withdraw : Type 0 where
  pub interval : ℤ
  pub batch_size : ℤ
  pub run_timeout : ℤ

-- `NewWithdraw`.
unfoldable pub new_withdraw : Bool → Withdraw → Made Withdraw
new_withdraw pool w =
    if pool
    then checked (validate_config w.interval w.batch_size w.run_timeout) w
    else rejected "janitor: pool is required"

pub record Partition : Type 0 where
  pub interval : ℤ
  pub lookahead_months : ℤ
  pub run_timeout : ℤ

-- `validatePartitionConfig`.
unfoldable pub validate_partition_config : Partition → Option String
validate_partition_config p =
    if is_positive p.interval
    then if is_positive p.lookahead_months
      then if is_positive p.run_timeout
        then none
        else some "partition janitor: run timeout must be > 0"
      else some "partition janitor: lookahead months must be > 0"
    else some "partition janitor: interval must be > 0"

-- `NewPartition`.
unfoldable pub new_partition : Bool → Partition → Made Partition
new_partition pool p =
    if pool
    then checked (validate_partition_config p) p
    else rejected "partition janitor: pool is required"

abbrev line : Level → String → List ℕ → Entry
line level text counts = record { level = level; text = text; counts = counts }

-- The line of a sweep that was committed.
unfoldable pub sweep_line : ℕ × ℕ × ℕ → Entry
sweep_line (reversed, failed, expired) =
    if reversed == 0 && (failed == 0 && expired == 0)
    then line debug "withdraw janitor: nothing to reverse" []
    else line (if ltb 0 failed || ltb 0 expired then warn else info) "withdraw janitor: sweep done"
        (reversed ∷ failed ∷ expired ∷ [])

module _ {W : Type 0} (j : Jobs W) where
  -- `if err != nil { log.Error(text); return }`, behind the deferred rollback, and in front of it.
  unfoldable pub or_log : String → GoError × W → (W → Entry × W) → Entry × W
  or_log text (nil, w) rest = rest w
  or_log text (e, w) rest = (line error text [], j.rollback w)

  unfoldable pub begun : String → GoError × W → (W → Entry × W) → Entry × W
  begun text (nil, w) rest = rest w
  begun text (e, w) rest = (line error text [], w)

  unfoldable pub answered :
      {T : Type 0} → String → (T × GoError) × W → (T → W → Entry × W) → Entry × W
  answered text ((t, nil), w) rest = rest t w
  answered text ((t, e), w) rest = (line error text [], j.rollback w)

  -- `Withdraw.runOnce`.
  unfoldable pub withdraw_run_once : Withdraw → W → Entry × W
  unfolding or_log begun answered sweep_line
  withdraw_run_once r w = begun "withdraw janitor: begin failed" (j.begin w) λ w.
      or_log "withdraw janitor: set timeout failed" (j.set_timeout r.run_timeout w) λ w.
        answered "withdraw janitor: sweep failed" (j.sweep r.batch_size w) λ counts w.
          or_log "withdraw janitor: commit failed" (j.commit w)
            λ w. (sweep_line counts, j.rollback w)

  -- `Partition.runOnce`.
  unfoldable pub partition_run_once : Partition → W → Entry × W
  unfolding or_log begun answered
  partition_run_once p w = begun "partition janitor: begin failed" (j.begin w) λ w.
      or_log "partition janitor: set timeout failed" (j.set_timeout p.run_timeout w) λ w.
        answered "partition janitor: ensure failed" (j.ensure p.lookahead_months w) λ months w.
          or_log "partition janitor: commit failed" (j.commit w)
            λ w. (line info "partition janitor: ensured partitions" [], j.rollback w)
