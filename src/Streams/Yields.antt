-- ===== src/Streams/Yields.antt =====
-- What a source has yielded, told by the answers to its polls alone.
use gwead.Prelude.{◌≡◌, none, some, [], ◌++◌}
use gwead.Streams.{chunk, failed, Polled, pending, ready}
use gwead.Streams.Excerpt.{Bytes}

module _ {S : Type 0} (poll_next : S → Polled S) where
  -- `Yields s bytes t`: polled on from `s`, the source came to `t` and gave these bytes on the way.
  pub data Yields (s : S) : Bytes → S → Type 0 where
    starts : Yields s [] s
    waits :
        {bytes : Bytes} {t u : S} → Yields s bytes t → poll_next t ≡ pending u → Yields s bytes u
    gives :
        {bytes more : Bytes} {t u : S}
        → Yields s bytes t
        → poll_next t ≡ ready (some (chunk more)) u
        → Yields s (bytes ++ more) u
    fails :
        {bytes raw : Bytes} {t u : S}
        → Yields s bytes t
        → poll_next t ≡ ready (some (failed raw)) u
        → Yields s bytes u

  -- It gave these bytes in all, and then came to its end.
  abbrev pub Ends : S → Bytes → Type 0
  Ends s bytes = (t : S) × (u : S) × Yields s bytes t × (poll_next t ≡ ready none u)

  -- The bytes are the first ones that it gave.
  abbrev pub Begins : S → Bytes → Type 0
  Begins s bytes = (rest : Bytes) × (t : S) × Yields s (bytes ++ rest) t
