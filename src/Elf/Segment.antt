-- ===== src/Elf/Segment.antt =====
-- What the memory of a segment holds once it is loaded.
use bitch.Base.{ℕ, ◌+◌, ◌-◌, ◌≡◌, ltb, leb, if◌then◌else◌, ◌&&◌}
use bitch.Elf.{p_filesz, p_offset, segment_size}

-- The bytes of a file at `p`, with zeros behind them up to the segment's size, and nothing else changed.
pub Placed : (content header : ℕ → ℕ) (p : ℕ) (before after : ℕ → ℕ) → Type 0
Placed content header p before after =
    (a : ℕ)
    → after a ≡ (
        if leb p a && ltb a (p + p_filesz header)
        then content (p_offset header + (a - p))
        else if leb (p + p_filesz header) a && ltb a (p + segment_size header)
        then 0
        else before a)
