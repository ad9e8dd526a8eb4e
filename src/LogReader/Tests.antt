-- ===== src/LogReader/Tests.antt =====
-- Concrete runs of the log reader.
use vpp_blockchain.Base.{
  ℕ, ◌+◌, ◌-◌, ◌≡◌, ◌≤◌, refl, arith, false, none, some, List, [], ◌∷◌, ltb, if◌then◌else◌, codes,
}
use vpp_blockchain.Base.Exec.{ok, throw}
use vpp_blockchain.Errors.{string}
use vpp_blockchain.Errors.Range.{is_range_rejection}
use vpp_blockchain.LogReader.{
  Options, Reader, Network, Run, make_reader, read_once, read_from, ask, record_success, read,
  shrink,
}
use vpp_blockchain.LogReader.Span.{Valid, make_reader-Valid}
use vpp_blockchain.LogReader.Rounds.{Ends, read-Ends}
use vpp_blockchain.LogReader.Coverage.{Honest, logs, read-logs}
use vpp_blockchain.LogReader.Parallel.{
  answers, throws, asking, Event, calls, settles, run, new_requests,
}
use vpp_blockchain.LogReader.Parallel.Once.{shrunk_once, run_shrinks_once}
use vpp_blockchain.LogReader.Failover.{Answers, Succeeds, read_once-Succeeds}

-- Every block has one log, its number.
abbrev chain : ℕ → List ℕ
chain n = n ∷ []

-- Two sources; the first refuses whatever it is asked.
abbrev network : Network ℕ
network = record {
  query = λ n i a b.
      if ltb i 1
      then throw (string (codes "block range too large"))
      else ok (logs chain a (b + 1 - a));
  should_stop = λ n. false;
}

abbrev options : Options
options = record { max_span = 2; grow_after = none }

abbrev reader : Reader
reader = record { span = 2; preferred = 0; successes = 0; source_count = 2; options = options }

abbrev start : Run
start = record { reader = reader; requests = 0 }

made : make_reader 2 options ≡ ok reader
unfolding make_reader
made = refl

reader-Valid : Valid reader
reader-Valid = make_reader-Valid 2 options reader made

make_reader-Valid_example : Valid reader
make_reader-Valid_example = make_reader-Valid 2 options reader made

network-Honest : Honest network chain
network-Honest = record { answers = λ n i a b xs e. ground arith }

read-Ends_example : Ends reader (read network 100 3 7 start)
read-Ends_example = read-Ends network 100 3 7 start reader-Valid (omega arith)

second-Answers : Answers network 1 3 4
second-Answers = record { always = λ n. (logs chain 3 2, refl) }

read_once-Succeeds_example : Succeeds (read_once network 3 4 start).0
read_once-Succeeds_example =
    read_once-Succeeds network (λ n. refl) 1 3 4 start reader-Valid (omega arith) second-Answers

abbrev after : Run
after = record { reader = record reader { preferred = 1 }; requests = 4 }

read_three : read network 100 3 7 start ≡ some (ok (3 ∷ 4 ∷ 5 ∷ 6 ∷ 7 ∷ []), after)
unfolding read read_from read_once ask logs record_success
read_three = refl

read-logs_example : 3 ∷ 4 ∷ 5 ∷ 6 ∷ 7 ∷ [] ≡ logs chain 3 5
read-logs_example =
    read-logs network chain network-Honest 100 3 7 start (3 ∷ 4 ∷ 5 ∷ 6 ∷ 7 ∷ []) after reader-Valid
      read_three

-- One source refuses two requests of 1000 blocks at the same time.
abbrev wide : Reader
wide = record {
  span = 1000;
  preferred = 0;
  successes = 0;
  source_count = 1;
  options = record { max_span = 1000; grow_after = none };
}

abbrev two_refusals : List Event
two_refusals =
    calls 0 1000 false
    ∷ calls 1 1000 false
    ∷ settles 0 (throws (string (codes "block range too large"))) false
    ∷ settles 1 (throws (string (codes "block range too large"))) false
    ∷ []

half_span : (run (new_requests wide) two_refusals).reader.span ≡ 500
unfolding run shrink is_range_rejection
half_span = refl

wide-Valid : Valid wide
wide-Valid = record {
  positive = omega arith;
  bounded = omega arith;
  sources = omega arith;
  preferred = omega arith;
}

run_shrinks_once_example :
    (shrunk_once 1000 wide ≤ (run (new_requests wide) two_refusals).reader.span)
    × Valid (run (new_requests wide) two_refusals).reader
run_shrinks_once_example = run_shrinks_once 1000 wide two_refusals wide-Valid (omega arith)

-- The first of two sources is down. Another request ends in between, and the request asks the first one again.
abbrev two_requests : List Event
two_requests =
    calls 0 2 false
    ∷ calls 1 2 false
    ∷ settles 1 (throws (string (codes "down"))) false
    ∷ settles 1 answers false
    ∷ settles 0 (throws (string (codes "down"))) false
    ∷ []

asks_failed_source : (run (new_requests reader) two_requests).phases 0 ≡ asking 2 1 0 false
unfolding run is_range_rejection record_success
asks_failed_source = refl
