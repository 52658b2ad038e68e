-- ===== src/Ecc/Table.antt =====
-- `column_parity_table` of yaffs_ecc.c.
use whisper_yaffs.Prelude.{ℕ, List, [], ◌∷◌}

unfoldable pub column_parity_table : List ℕ
column_parity_table =
    0x00 ∷ 0x55 ∷ 0x59 ∷ 0x0c ∷ 0x65 ∷ 0x30 ∷ 0x3c ∷ 0x69 ∷ 0x69 ∷ 0x3c ∷ 0x30 ∷ 0x65 ∷ 0x0c ∷ 0x59
    ∷ 0x55 ∷ 0x00 ∷ 0x95 ∷ 0xc0 ∷ 0xcc ∷ 0x99 ∷ 0xf0 ∷ 0xa5 ∷ 0xa9 ∷ 0xfc ∷ 0xfc ∷ 0xa9 ∷ 0xa5
    ∷ 0xf0 ∷ 0x99 ∷ 0xcc ∷ 0xc0 ∷ 0x95 ∷ 0x99 ∷ 0xcc ∷ 0xc0 ∷ 0x95 ∷ 0xfc ∷ 0xa9 ∷ 0xa5 ∷ 0xf0
    ∷ 0xf0 ∷ 0xa5 ∷ 0xa9 ∷ 0xfc ∷ 0x95 ∷ 0xc0 ∷ 0xcc ∷ 0x99 ∷ 0x0c ∷ 0x59 ∷ 0x55 ∷ 0x00 ∷ 0x69
    ∷ 0x3c ∷ 0x30 ∷ 0x65 ∷ 0x65 ∷ 0x30 ∷ 0x3c ∷ 0x69 ∷ 0x00 ∷ 0x55 ∷ 0x59 ∷ 0x0c ∷ 0xa5 ∷ 0xf0
    ∷ 0xfc ∷ 0xa9 ∷ 0xc0 ∷ 0x95 ∷ 0x99 ∷ 0xcc ∷ 0xcc ∷ 0x99 ∷ 0x95 ∷ 0xc0 ∷ 0xa9 ∷ 0xfc ∷ 0xf0
    ∷ 0xa5 ∷ 0x30 ∷ 0x65 ∷ 0x69 ∷ 0x3c ∷ 0x55 ∷ 0x00 ∷ 0x0c ∷ 0x59 ∷ 0x59 ∷ 0x0c ∷ 0x00 ∷ 0x55
    ∷ 0x3c ∷ 0x69 ∷ 0x65 ∷ 0x30 ∷ 0x3c ∷ 0x69 ∷ 0x65 ∷ 0x30 ∷ 0x59 ∷ 0x0c ∷ 0x00 ∷ 0x55 ∷ 0x55
    ∷ 0x00 ∷ 0x0c ∷ 0x59 ∷ 0x30 ∷ 0x65 ∷ 0x69 ∷ 0x3c ∷ 0xa9 ∷ 0xfc ∷ 0xf0 ∷ 0xa5 ∷ 0xcc ∷ 0x99
    ∷ 0x95 ∷ 0xc0 ∷ 0xc0 ∷ 0x95 ∷ 0x99 ∷ 0xcc ∷ 0xa5 ∷ 0xf0 ∷ 0xfc ∷ 0xa9 ∷ 0xa9 ∷ 0xfc ∷ 0xf0
    ∷ 0xa5 ∷ 0xcc ∷ 0x99 ∷ 0x95 ∷ 0xc0 ∷ 0xc0 ∷ 0x95 ∷ 0x99 ∷ 0xcc ∷ 0xa5 ∷ 0xf0 ∷ 0xfc ∷ 0xa9
    ∷ 0x3c ∷ 0x69 ∷ 0x65 ∷ 0x30 ∷ 0x59 ∷ 0x0c ∷ 0x00 ∷ 0x55 ∷ 0x55 ∷ 0x00 ∷ 0x0c ∷ 0x59 ∷ 0x30
    ∷ 0x65 ∷ 0x69 ∷ 0x3c ∷ 0x30 ∷ 0x65 ∷ 0x69 ∷ 0x3c ∷ 0x55 ∷ 0x00 ∷ 0x0c ∷ 0x59 ∷ 0x59 ∷ 0x0c
    ∷ 0x00 ∷ 0x55 ∷ 0x3c ∷ 0x69 ∷ 0x65 ∷ 0x30 ∷ 0xa5 ∷ 0xf0 ∷ 0xfc ∷ 0xa9 ∷ 0xc0 ∷ 0x95 ∷ 0x99
    ∷ 0xcc ∷ 0xcc ∷ 0x99 ∷ 0x95 ∷ 0xc0 ∷ 0xa9 ∷ 0xfc ∷ 0xf0 ∷ 0xa5 ∷ 0x0c ∷ 0x59 ∷ 0x55 ∷ 0x00
    ∷ 0x69 ∷ 0x3c ∷ 0x30 ∷ 0x65 ∷ 0x65 ∷ 0x30 ∷ 0x3c ∷ 0x69 ∷ 0x00 ∷ 0x55 ∷ 0x59 ∷ 0x0c ∷ 0x99
    ∷ 0xcc ∷ 0xc0 ∷ 0x95 ∷ 0xfc ∷ 0xa9 ∷ 0xa5 ∷ 0xf0 ∷ 0xf0 ∷ 0xa5 ∷ 0xa9 ∷ 0xfc ∷ 0x95 ∷ 0xc0
    ∷ 0xcc ∷ 0x99 ∷ 0x95 ∷ 0xc0 ∷ 0xcc ∷ 0x99 ∷ 0xf0 ∷ 0xa5 ∷ 0xa9 ∷ 0xfc ∷ 0xfc ∷ 0xa9 ∷ 0xa5
    ∷ 0xf0 ∷ 0x99 ∷ 0xcc ∷ 0xc0 ∷ 0x95 ∷ 0x00 ∷ 0x55 ∷ 0x59 ∷ 0x0c ∷ 0x65 ∷ 0x30 ∷ 0x3c ∷ 0x69
    ∷ 0x69 ∷ 0x3c ∷ 0x30 ∷ 0x65 ∷ 0x0c ∷ 0x59 ∷ 0x55 ∷ 0x00 ∷ []
