-- ===== src/Elf/Tests.antt =====
-- A segment of the small machine of Umm/Tests.
use bitch.Base.{ℕ, ◌+◌, some, ltb, ◌==◌, if◌then◌else◌}
use bitch.Umm.Tests.{machine}
use bitch.Elf.{FileRead, Loader}

abbrev content : ℕ → ℕ
content b = b

abbrev read_content : FileRead
read_content buf count offect =
    (some count, λ q. if ltb q count then content (offect + q) else buf q)

-- 32 bytes of the file from byte 100 on, at 0x8010, with 16 zeros behind them.
abbrev header : ℕ → ℕ
header b =
    if b == 0
    then 1
    else if b == 4
    then 100
    else if b == 8
    then 0x10
    else if b == 9
    then 0x80
    else if b == 16
    then 32
    else if b == 20
    then 48
    else 0

abbrev loader : Loader
loader = record { umm = machine; memory = λ a. 7 }
