-- ===== src/Examples/Servers.antt =====
-- The theorem on all servers over one store, at the data of the parent module.
use ghostmail.Prelude.{true, none, some, List, [], ◌∷◌, ◌==◌, codes}
use ghostmail.Storage.Uids.{UidsInRange}
use ghostmail.Expiry.{sweeps}
use ghostmail.Imap.Fetch.{seq_set}
use ghostmail.Imap.Commands.{creates, moves, expunges}
use ghostmail.System.{Event, delivers, commands, ticks, removes, run_events, run_events-UidsInRange}
use ghostmail.Examples.{toy, alice}
use ghostmail.Examples.Store.{tables-UidsInRange}
use ghostmail.Examples.Mail.{data_env, text, inbound, failing}
use ghostmail.Examples.Boxes.{reaper, selected}

abbrev events : List Event
events =
    delivers data_env inbound text
    ∷ commands toy (record selected { user = some alice }) (creates (codes "Work") 7)
    ∷ commands toy (record selected { user = some alice })
        (moves (λ es. es) (seq_set (λ n. n == 1)) (codes "Work") true (λ n. true))
    ∷ commands toy selected (expunges none (λ n. true))
    ∷ ticks reaper (sweeps 1 2 3)
    ∷ removes 9 (some 1)
    ∷ []

run_events_example : UidsInRange (run_events events failing).tables
run_events_example = run_events-UidsInRange events failing tables-UidsInRange
