-- ===== src/Tests/Stream.antt =====
-- Writes on the stream.
use airgate_sdk.Prelude.{ℕ, String, refl, inl, true, [], ◌∷◌}
use airgate_sdk.Stream.{StreamWriter, new_writer, write}
use airgate_sdk.Stream.Phases.{IsFresh, Written}
use airgate_sdk.Stream.Writes.{write-Written}
use airgate_sdk.Tests.{open_transport}

abbrev fresh : StreamWriter ℕ String
fresh = new_writer

abbrev fresh_completing : StreamWriter ℕ String
fresh_completing = record new_writer { completing = true }

fresh-IsFresh : IsFresh fresh
fresh-IsFresh = record { alive = refl; unsent = refl; empty = refl; no_tail = refl }

fresh_completing-IsFresh : IsFresh fresh_completing
fresh_completing-IsFresh = record { alive = refl; unsent = refl; empty = refl; no_tail = refl }

write-Written_example :
    Written fresh_completing (1 ∷ 2 ∷ []) (write open_transport fresh_completing (1 ∷ 2 ∷ []))
write-Written_example =
    write-Written open_transport fresh_completing (1 ∷ 2 ∷ []) (inl fresh_completing-IsFresh)
