-- ===== src/Listener/Restart.antt =====
-- A restart from the saved blocks: `setup_eo_server` of crates/node/src/main.rs.
use lasr.Base.{
  ℕ, ◌+◌, ◌^◌, ◌≤◌, ◌<◌, ◌≡◌, ◌≢◌, refl, ap, ◌∙◌, inl, inr, arith, true, false, some, List, [], ◌∷◌,
  retain, map, Bool-cases,
}
use lasr.Listener.{
  Channel, Filter, Contract, highest, max, Processed, parsed, EoServer, save_blocks_processed,
  setup_eo_server, process_logs, started_channel,
}
use lasr.Listener.Once.{ChainLog, within, blocks_of, highest-append, answer, request_lem}

found_from :
    {D : Type 0} (f : Filter) (head : ℕ) (chain : List (ChainLog D))
    → retain (within f head) chain ≢ []
    → f.from_block ≤ highest (blocks_of (retain (within f head) chain))
found_from f head [] found = absurd (found refl)
found_from f head (log ∷ chain) found = elim (Bool-cases (within f head log)) [
  | inl e ↦ ground arith
  | inr e ↦ ground (arith, found_from f head chain)
]

-- a log of the chain that was not processed, before the block that is current
abbrev pub IsBehind : {D : Type 0} → Channel → ChainLog D → Type 0
IsBehind c log = (highest c.processed_blocks < log.block) × (log.block < c.current_filter_block)

module _ {D L : Type 0} (contract : Contract D L) (g : D → L)
    (address : contract.address_parses ≡ true)
    (parses : (d : D) → contract.parse_log d ≡ some (g d)) (chain : List (ChainLog D)) where
  -- The server is started from the blocks that it saved, and its first request for the bridge finds
  -- something. A log that was not processed when they were saved, and lies before the block that was
  -- current then, is not found by this request, nor by a later one: it lies before the new filter,
  -- wherever the head of the chain is, and counts as processed.
  pub restart_loses :
      (server : EoServer) (log : ChainLog D) (head block_number : ℕ)
      → IsBehind server.bridge log
      → server.bridge.current_filter_block + 1 < 2 ^ 64
      → highest server.bridge.processed_blocks + 1 < 2 ^ 64
      → head + 1 < 2 ^ 64
      → block_number + 1 < 2 ^ 64
      → let c = (setup_eo_server (save_blocks_processed server)).bridge in
        retain (within c.filter head) chain ≢ []
        → (logs : List L) × (c' : Channel) × (process_logs contract
              (some (answer chain head c.filter))
              (some block_number)
              c
            ≡ parsed logs c')
          × (within c.filter head log ≡ false)
          × (log.block ≤ highest c'.processed_blocks)
          × ((head' : ℕ) → within c'.filter head' log ≡ false)
  unfolding setup_eo_server process_logs lasr.Listener.increment_filter
  restart_loses server log head block_number (new, old) fits top_fits head_fits told_fits found =
      let c = (setup_eo_server (save_blocks_processed server)).bridge in
      let logs = retain (within c.filter head) chain in
      let blocks = blocks_of logs in
      let (c', run, e, _, ready) =
        request_lem contract g address parses chain head block_number c fits top_fits head_fits
          told_fits in
      let top : highest c'.processed_blocks ≡ max (highest c.processed_blocks) (highest blocks) =
        ap highest e ∙ highest-append c.processed_blocks blocks in
      let behind : log.block ≤ highest c'.processed_blocks =
        ground (arith, top, found_from c.filter head chain found) in
      (
        map (λ (log : ChainLog D). g log.content) logs,
        c',
        run,
        ground arith,
        behind,
        λ head'. ground (arith, behind, ready.from),
      )
