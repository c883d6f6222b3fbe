-- ===== src/Listener/Once.antt =====
-- How often a log is delivered: crates/eo_listener/src/lib.rs over a node that answers a filter by the
-- logs of the contract in its blocks, as far as the chain goes.
use lasr.Base.{
  ℕ, ◌+◌, ◌^◌, ◌≤◌, ◌<◌, ◌≡◌, refl, ap, ◌∙◌, ◌⊎◌, inl, inr, arith, Bool, true, ◌&&◌, Option, none,
  some, List, [], ◌∷◌, ◌++◌, leb, retain, map, All, tally, tally-append, tally-map, Bool-cases,
}
use lasr.Listener.{
  Filter, Channel, RawLog, Contract, highest, max, Processed, parsed, failed, panicked,
  increment_filter, collect, process_logs,
}

-- a log of the chain: its block and what it holds
pub record ChainLog (D : Type 0) : Type 0 where
  pub block : ℕ
  pub content : D

abbrev pub up_to : Option ℕ → ℕ → Bool
up_to none b = true
up_to (some to) b = leb b to

-- the log lies within the filter, and within the chain up to its head
abbrev pub within : {D : Type 0} → Filter → ℕ → ChainLog D → Bool
within f head log = leb f.from_block log.block && (up_to f.to_block log.block && leb log.block head)

abbrev raw : {D : Type 0} → ChainLog D → RawLog D
raw log = record { block_number = some log.block; content = log.content }

-- `eth_getLogs`
abbrev pub answer : {D : Type 0} → List (ChainLog D) → ℕ → Filter → List (RawLog D)
answer chain head f = map raw (retain (within f head) chain)

abbrev pub blocks_of : {D : Type 0} → List (ChainLog D) → List ℕ
blocks_of logs = map (λ log. log.block) logs

pub highest-append : (xs ys : List ℕ) → highest (xs ++ ys) ≡ max (highest xs) (highest ys)
highest-append [] ys = ground arith
highest-append (x ∷ xs) ys = ground (arith, highest-append xs ys)

module _ {D : Type 0} (f : Filter) (head : ℕ) where
  -- what is found lies within the blocks that were asked for
  pub found_bound :
      (chain : List (ChainLog D))
      → let top = highest (blocks_of (retain (within f head) chain)) in
        (top ≡ 0) ⊎ ((top ≤ head) × (up_to f.to_block top ≡ true))
  found_bound [] = inl refl
  found_bound (log ∷ chain) = ground (arith, found_bound chain)

  found_below :
      (chain : List (ChainLog D)) (top : ℕ)
      → highest (blocks_of (retain (within f head) chain)) ≤ top
      → All (λ log. within f head log ≡ true → log.block ≤ top) chain
  found_below [] top h = tt
  found_below (log ∷ chain) top h = elim (Bool-cases (within f head log)) [
    | inl e ↦ (λ _. ground arith, found_below chain top ground arith)
    | inr e ↦ (λ e'. cc, found_below chain top ground arith)
  ]

  -- the logs up to the new last block are those up to the old one and those that were found
  split_tally :
      (q : ChainLog D → Bool) (last last' : ℕ) (chain : List (ChainLog D))
      → f.from_block ≡ last + 1
      → last ≤ last'
      → (last' ≡ last) ⊎ ((last' ≤ head) × (up_to f.to_block last' ≡ true))
      → All (λ log. within f head log ≡ true → log.block ≤ last') chain
      → tally q (retain (λ log. leb log.block last') chain)
        ≡ tally q (retain (λ log. leb log.block last) chain)
          + tally q (retain (within f head) chain)
  split_tally q last last' [] from le bound below = omega arith
  split_tally q last last' (log ∷ chain) from le bound (here, below) =
      ground (arith, here, split_tally q last last' chain from le bound below)

-- The next filter ends behind the block number that the last but one request was told.
abbrev pub Moved : ℕ → Channel → Channel → Type 0
Moved block_number c c' =
    (c'.current_filter_block ≡ block_number)
    × (c'.filter.to_block ≡ some (c.current_filter_block + 1))

-- A channel between two requests: the filter starts behind the last block that is processed, and the
-- sums of the next round fit.
pub record IsReady (c : Channel) : Type 0 where
  pub from : c.filter.from_block ≡ highest c.processed_blocks + 1
  pub current_fits : c.current_filter_block + 1 < 2 ^ 64
  pub highest_fits : highest c.processed_blocks + 1 < 2 ^ 64

abbrev pub processed : {D : Type 0} → Channel → List (ChainLog D) → List (ChainLog D)
processed c chain = retain (λ log. leb log.block (highest c.processed_blocks)) chain

module _ {D L : Type 0} (contract : Contract D L) (g : D → L)
    (address : contract.address_parses ≡ true)
    (parses : (d : D) → contract.parse_log d ≡ some (g d)) (chain : List (ChainLog D)) where
  collect-raw :
      (logs : List (ChainLog D))
      → collect contract (map raw logs) ≡ some (map (λ log. g log.content) logs, blocks_of logs)
  unfolding collect
  collect-raw [] = refl
  collect-raw (log ∷ logs) = ground (arith, collect-raw logs, parses log.content)

  abbrev pub request : ℕ → ℕ → Channel → Processed L
  request head block_number c =
      process_logs contract (some (answer chain head c.filter)) (some block_number) c

  pub request_lem :
      (head block_number : ℕ) (c : Channel)
      → c.current_filter_block + 1 < 2 ^ 64
      → highest c.processed_blocks + 1 < 2 ^ 64
      → head + 1 < 2 ^ 64
      → block_number + 1 < 2 ^ 64
      → let found = retain (within c.filter head) chain in
        (c' : Channel) × (request head block_number c
          ≡ parsed (map (λ log. g log.content) found) c')
        × (c'.processed_blocks ≡ c.processed_blocks ++ blocks_of found)
        × Moved block_number c c'
        × IsReady c'
  unfolding process_logs increment_filter
  request_lem head block_number c current_fits highest_fits fits fits' =
      let found = retain (within c.filter head) chain in
      let blocks = c.processed_blocks ++ blocks_of found in
      let c' : Channel = record {
        processed_blocks = blocks;
        current_filter_block = block_number;
        filter = record {
          from_block = highest blocks + 1;
          to_block = some (c.current_filter_block + 1);
        };
      } in
      let top : highest blocks + 1 < 2 ^ 64 = ground (
        arith,
        highest_fits,
        found_bound c.filter head chain,
        highest-append c.processed_blocks (blocks_of found),
      ) in
      let moved : increment_filter contract block_number (record c { processed_blocks = blocks })
          ≡ some c' =
        ground (arith, top, current_fits) in
      (
        c',
        ground (arith, collect-raw found, moved),
        refl,
        (refl, refl),
        record { from = refl; current_fits = fits'; highest_fits = top },
      )

  request-tally :
      (head : ℕ) (c c' : Channel) (q : ChainLog D → Bool)
      → IsReady c
      → c'.processed_blocks ≡ c.processed_blocks ++ blocks_of (retain (within c.filter head) chain)
      → tally q (processed c' chain)
        ≡ tally q (processed c chain) + tally q (retain (within c.filter head) chain)
  request-tally head c c' q ready e =
      let blocks = blocks_of (retain (within c.filter head) chain) in
      let top : highest c'.processed_blocks ≡ max (highest c.processed_blocks) (highest blocks) =
        ap highest e ∙ highest-append c.processed_blocks blocks in
      split_tally c.filter head q (highest c.processed_blocks) (highest c'.processed_blocks) chain
        ready.from (ground (arith, top)) (ground (arith, top, found_bound c.filter head chain))
        (found_below c.filter head chain (highest c'.processed_blocks) (ground (arith, top)))

  abbrev then_request : Processed L → (Channel → Processed L) → Processed L
  then_request (parsed logs c) f = elim (f c) [
    | parsed logs' c' ↦ parsed (logs ++ logs') c'
    | failed c' ↦ failed c'
    | panicked ↦ panicked
  ]
  then_request (failed c) f = failed c
  then_request panicked f = panicked

  -- requests one after the other, each with the head of the chain that the node knows, and with the
  -- block number that it tells
  unfoldable pub requests : List (ℕ × ℕ) → Channel → Processed L
  requests [] c = parsed [] c
  requests ((head, block_number) ∷ rounds) c =
      then_request (request head block_number c) (requests rounds)

  requests-cons :
      (r : ℕ × ℕ) (rounds : List (ℕ × ℕ)) (c c' c'' : Channel) (logs logs' : List L)
      → request r.0 r.1 c ≡ parsed logs c'
      → requests rounds c' ≡ parsed logs' c''
      → requests (r ∷ rounds) c ≡ parsed (logs ++ logs') c''
  unfolding requests
  requests-cons r rounds c c' c'' logs logs' e e' = rw (e, e') refl

  -- Let a channel start behind its last processed block, every log of the chain parse, and the
  -- numbers of blocks be below the largest one. Then any rounds of requests succeed, whatever heads
  -- and block numbers the node tells, and each log of the chain that lies behind the last block
  -- processed before and not behind the last one processed after is delivered exactly once, and no
  -- other log is: for any test, the logs delivered that pass it are as many as those of the chain.
  pub requests-once :
      (rounds : List (ℕ × ℕ)) (c : Channel) (p : L → Bool)
      → IsReady c
      → All (λ r. (r.0 + 1 < 2 ^ 64) × (r.1 + 1 < 2 ^ 64)) rounds
      → let q = λ (log : ChainLog D). p (g log.content) in
        (logs : List L) × (c' : Channel) × (requests rounds c ≡ parsed logs c')
        × (tally p logs + tally q (processed c chain) ≡ tally q (processed c' chain))
        × IsReady c'
  unfolding requests
  requests-once [] c p ready _ = ([], c, refl, omega arith, ready)
  requests-once ((head, block_number) ∷ rounds) c p ready ((fits, fits'), rest) =
      let found = retain (within c.filter head) chain in
      let q = λ (log : ChainLog D). p (g log.content) in
      let out = map (λ (log : ChainLog D). g log.content) found in
      let (c₁, e₁, b₁, _, ready₁) =
        request_lem head block_number c ready.current_fits ready.highest_fits fits fits' in
      let (logs, c₂, e₂, t₂, ready₂) = requests-once rounds c₁ p ready₁ rest in
      (
        out ++ logs,
        c₂,
        requests-cons (head, block_number) rounds c c₁ c₂ out logs e₁ e₂,
        omega (
          arith,
          t₂,
          request-tally head c c₁ q ready b₁,
          tally-append p out logs,
          tally-map p (λ (log : ChainLog D). g log.content) found,
        ),
        ready₂,
      )

  -- a request processes every log of its filter, and the last processed block does not fall
  request-covers :
      (head : ℕ) (c c' : Channel)
      → c'.processed_blocks ≡ c.processed_blocks ++ blocks_of (retain (within c.filter head) chain)
      → (highest c.processed_blocks ≤ highest c'.processed_blocks)
        × All
            (λ log. within c.filter head log ≡ true → log.block ≤ highest c'.processed_blocks)
            chain
  request-covers head c c' e =
      let blocks = blocks_of (retain (within c.filter head) chain) in
      let top : highest c'.processed_blocks ≡ max (highest c.processed_blocks) (highest blocks) =
        ap highest e ∙ highest-append c.processed_blocks blocks in
      (
        ground (arith, top),
        found_below c.filter head chain (highest c'.processed_blocks) (ground (arith, top)),
      )

  covered :
      (c : Channel) (head last to : ℕ) (logs : List (ChainLog D))
      → IsReady c
      → c.filter.to_block ≡ some to
      → highest c.processed_blocks ≤ last
      → All (λ log. within c.filter head log ≡ true → log.block ≤ last) logs
      → All (λ log. log.block ≤ to → log.block ≤ head → log.block ≤ last) logs
  covered c head last to [] ready e le _ = tt
  covered c head last to (log ∷ logs) ready e le (here, below) =
      (λ h h'. ground (arith, here, ready.from), covered c head last to logs ready e le below)

  -- Of three requests that follow one another, under the same conditions: the third leaves no log of
  -- the chain behind that lies not behind the next block to the one that the first was told, and
  -- not behind the head of the third.
  pub requests-cover :
      (r₁ r₂ r₃ : ℕ × ℕ) (c : Channel)
      → IsReady c
      → All (λ r. (r.0 + 1 < 2 ^ 64) × (r.1 + 1 < 2 ^ 64)) (r₁ ∷ r₂ ∷ r₃ ∷ [])
      → (logs : List L) × (c' : Channel) × (requests (r₁ ∷ r₂ ∷ r₃ ∷ []) c ≡ parsed logs c')
        × All
            (λ log.
              log.block ≤ r₁.1 + 1 → log.block ≤ r₃.0 → log.block ≤ highest c'.processed_blocks)
            chain
  unfolding requests
  requests-cover r₁ r₂ r₃ c ready ((f₁, g₁), ((f₂, g₂), ((f₃, g₃), _))) =
      let (c₁, e₁, _, (told, _), ready₁) =
        request_lem r₁.0 r₁.1 c ready.current_fits ready.highest_fits f₁ g₁ in
      let (c₂, e₂, _, (_, to), ready₂) =
        request_lem r₂.0 r₂.1 c₁ ready₁.current_fits ready₁.highest_fits f₂ g₂ in
      let (c₃, e₃, b₃, _, ready₃) =
        request_lem r₃.0 r₃.1 c₂ ready₂.current_fits ready₂.highest_fits f₃ g₃ in
      let (le, below) = request-covers r₃.0 c₂ c₃ b₃ in
      let out = λ (head : ℕ) (c : Channel).
        map (λ (log : ChainLog D). g log.content) (retain (within c.filter head) chain) in
      (
        out r₁.0 c ++ (out r₂.0 c₁ ++ (out r₃.0 c₂ ++ [])),
        c₃,
        requests-cons r₁ (r₂ ∷ r₃ ∷ []) c c₁ c₃ _ _ e₁ (
            requests-cons r₂ (r₃ ∷ []) c₁ c₂ c₃ _ _ e₂ (requests-cons r₃ [] c₂ c₃ c₃ _ [] e₃ refl)),
        covered c₂ r₃.0 (highest c₃.processed_blocks) (r₁.1 + 1) chain ready₂
            (ground (arith, told, to)) le below,
      )
