-- ===== src/LogReader.antt =====
-- packages/backend/src/lib/log-reader.ts: `AdaptiveLogReader`. The state of the class is a record;
-- what the sources answer is a parameter that also takes the number of the request, so that two
-- equal requests may be answered differently. An answer is what `withTimeout` settles with: a
-- source that does not answer in time has thrown. Here one call runs at a time; LogReader/Parallel runs
-- several.
mod Tests
pub mod Span
pub mod Rounds
pub mod Coverage
pub mod Failover
pub mod Parallel
use vpp_blockchain.Base.{
  ℕ, zero, suc, ◌+◌, ◌-◌, ◌*◌, ◌/◌, ◌%◌, min, max, Bool, true, false, ◌&&◌, ◌||◌, Option, none,
  some, List, [], ◌∷◌, ◌++◌, ltb, leb, ◌==◌, if◌then◌else◌,
}
use vpp_blockchain.Base.Exec.{Result, ok, throw}
use vpp_blockchain.Errors.{ErrorValue, nothing}
use vpp_blockchain.Errors.Range.{is_range_rejection}

pub record Options : Type 0 where
  pub max_span : ℕ
  pub grow_after : Option ℕ

pub record Reader : Type 0 where
  pub span : ℕ
  pub preferred : ℕ
  pub successes : ℕ
  pub source_count : ℕ
  pub options : Options

-- The `n`-th request, and the `n`-th look at `shouldStop`.
pub record Network (T : Type 0) : Type 0 where
  pub query : (request index from_block to_block : ℕ) → Result ErrorValue (List T)
  pub should_stop : ℕ → Bool

pub data ReadError : Type 0 where
  needs_a_source superseded : ReadError
  range_rejected failed : ErrorValue → ReadError

pub record Run : Type 0 where
  pub reader : Reader
  pub requests : ℕ

-- constructor(sourceCount, options)
pub make_reader : ℕ → Options → Result ReadError Reader
make_reader source_count options =
    if ltb source_count 1
    then throw needs_a_source
    else ok (record {
      span = max 1 options.max_span;
      preferred = 0;
      successes = 0;
      source_count = source_count;
      options = options;
    })

-- this.options.growAfter ?? 10
abbrev grow_after : Options → ℕ
grow_after o = elim o.grow_after [ none ↦ 10 | some n ↦ n ]

pub record_success : ℕ → Reader → Reader
record_success requested r =
    if leb r.options.max_span r.span || ltb requested r.span
    then r
    else if leb (grow_after r.options) (r.successes + 1)
    then record r { span = min r.options.max_span (r.span * 2); successes = 0 }
    else record r { successes = r.successes + 1 }

-- The reader after every source refused the range of `requested` blocks.
pub shrink : ℕ → Reader → Reader
shrink requested r = record r { span = max 1 (min r.span (requested / 2)); successes = 0 }

module _ {T : Type 0} (net : Network T) where
  -- The loop of `readOnce` from `attempt` on, with `left` sources not yet asked.
  unfoldable pub ask :
      (left attempt from_block to_block : ℕ)
      → ErrorValue
      → Bool
      → Run
      → Result ReadError (List T) × Run
  unfolding shrink record_success
  ask zero attempt from_block to_block last_error refused s =
      if refused
      then (
        throw (range_rejected last_error),
        record s { reader = shrink (to_block - from_block + 1) s.reader },
      )
      else (throw (failed last_error), s)
  ask (suc left) attempt from_block to_block last_error refused s =
      let index = (s.reader.preferred + attempt) % s.reader.source_count in
      let after : Run = record s { requests = s.requests + 1 } in
      elim (net.should_stop s.requests) [
        | true ↦ (throw superseded, s)
        | false ↦ elim (net.query s.requests index from_block to_block) [
          | ok results ↦ (
            ok results,
            record after {
              reader =
                  record_success (to_block - from_block + 1)
                    (record s.reader { preferred = index });
            },
          )
          | throw err ↦
              ask left (attempt + 1) from_block to_block err (is_range_rejection err || refused)
                after
        ]
      ]

  unfoldable pub read_once : (from_block to_block : ℕ) → Run → Result ReadError (List T) × Run
  read_once from_block to_block s = ask s.reader.source_count 0 from_block to_block nothing false s

  -- The loop of `read`, where `results` were collected; `none` when the fuel runs out.
  pub read_from :
      (fuel from_block to_block : ℕ) → List T → Run → Option (Result ReadError (List T) × Run)
  read_from zero from_block to_block results s = none
  read_from (suc fuel) from_block to_block results s =
      let to = min (from_block + s.reader.span - 1) to_block in
      elim (leb from_block to_block) [
        | false ↦ some (ok results, s)
        | true ↦
            let (r, s') = read_once from_block to s in
            elim r [
              | ok more ↦ read_from fuel (to + 1) to_block (results ++ more) s'
              | throw (range_rejected e) ↦ elim (ltb from_block to) [
                | true ↦ read_from fuel from_block to_block results s'
                | false ↦ some (throw (range_rejected e), s')
              ]
              | throw e ↦ some (throw e, s')
            ]
      ]

  pub read : (fuel from_block to_block : ℕ) → Run → Option (Result ReadError (List T) × Run)
  unfolding read_from
  read fuel from_block to_block s = read_from fuel from_block to_block [] s
