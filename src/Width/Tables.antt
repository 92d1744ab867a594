-- ===== src/Width/Tables.antt =====
-- The tables of src/lib/wcwidth.cpp.
use fbterm.Prelude.{ℕ, List, [], ◌∷◌}

-- `struct interval`
pub record Interval : Type 0 where
  pub first : ℕ
  pub last : ℕ

abbrev to : ℕ → ℕ → Interval
to a b = record { first = a; last = b }

-- `combining` of `mk_wcwidth`: the non-spacing characters.
abbrev pub combining : List Interval
combining =
    to 0x0300 0x036F
    ∷ to 0x0483 0x0486
    ∷ to 0x0488 0x0489
    ∷ to 0x0591 0x05BD
    ∷ to 0x05BF 0x05BF
    ∷ to 0x05C1 0x05C2
    ∷ to 0x05C4 0x05C5
    ∷ to 0x05C7 0x05C7
    ∷ to 0x0600 0x0603
    ∷ to 0x0610 0x0615
    ∷ to 0x064B 0x065E
    ∷ to 0x0670 0x0670
    ∷ to 0x06D6 0x06E4
    ∷ to 0x06E7 0x06E8
    ∷ to 0x06EA 0x06ED
    ∷ to 0x070F 0x070F
    ∷ to 0x0711 0x0711
    ∷ to 0x0730 0x074A
    ∷ to 0x07A6 0x07B0
    ∷ to 0x07EB 0x07F3
    ∷ to 0x0901 0x0902
    ∷ to 0x093C 0x093C
    ∷ to 0x0941 0x0948
    ∷ to 0x094D 0x094D
    ∷ to 0x0951 0x0954
    ∷ to 0x0962 0x0963
    ∷ to 0x0981 0x0981
    ∷ to 0x09BC 0x09BC
    ∷ to 0x09C1 0x09C4
    ∷ to 0x09CD 0x09CD
    ∷ to 0x09E2 0x09E3
    ∷ to 0x0A01 0x0A02
    ∷ to 0x0A3C 0x0A3C
    ∷ to 0x0A41 0x0A42
    ∷ to 0x0A47 0x0A48
    ∷ to 0x0A4B 0x0A4D
    ∷ to 0x0A70 0x0A71
    ∷ to 0x0A81 0x0A82
    ∷ to 0x0ABC 0x0ABC
    ∷ to 0x0AC1 0x0AC5
    ∷ to 0x0AC7 0x0AC8
    ∷ to 0x0ACD 0x0ACD
    ∷ to 0x0AE2 0x0AE3
    ∷ to 0x0B01 0x0B01
    ∷ to 0x0B3C 0x0B3C
    ∷ to 0x0B3F 0x0B3F
    ∷ to 0x0B41 0x0B43
    ∷ to 0x0B4D 0x0B4D
    ∷ to 0x0B56 0x0B56
    ∷ to 0x0B82 0x0B82
    ∷ to 0x0BC0 0x0BC0
    ∷ to 0x0BCD 0x0BCD
    ∷ to 0x0C3E 0x0C40
    ∷ to 0x0C46 0x0C48
    ∷ to 0x0C4A 0x0C4D
    ∷ to 0x0C55 0x0C56
    ∷ to 0x0CBC 0x0CBC
    ∷ to 0x0CBF 0x0CBF
    ∷ to 0x0CC6 0x0CC6
    ∷ to 0x0CCC 0x0CCD
    ∷ to 0x0CE2 0x0CE3
    ∷ to 0x0D41 0x0D43
    ∷ to 0x0D4D 0x0D4D
    ∷ to 0x0DCA 0x0DCA
    ∷ to 0x0DD2 0x0DD4
    ∷ to 0x0DD6 0x0DD6
    ∷ to 0x0E31 0x0E31
    ∷ to 0x0E34 0x0E3A
    ∷ to 0x0E47 0x0E4E
    ∷ to 0x0EB1 0x0EB1
    ∷ to 0x0EB4 0x0EB9
    ∷ to 0x0EBB 0x0EBC
    ∷ to 0x0EC8 0x0ECD
    ∷ to 0x0F18 0x0F19
    ∷ to 0x0F35 0x0F35
    ∷ to 0x0F37 0x0F37
    ∷ to 0x0F39 0x0F39
    ∷ to 0x0F71 0x0F7E
    ∷ to 0x0F80 0x0F84
    ∷ to 0x0F86 0x0F87
    ∷ to 0x0F90 0x0F97
    ∷ to 0x0F99 0x0FBC
    ∷ to 0x0FC6 0x0FC6
    ∷ to 0x102D 0x1030
    ∷ to 0x1032 0x1032
    ∷ to 0x1036 0x1037
    ∷ to 0x1039 0x1039
    ∷ to 0x1058 0x1059
    ∷ to 0x1160 0x11FF
    ∷ to 0x135F 0x135F
    ∷ to 0x1712 0x1714
    ∷ to 0x1732 0x1734
    ∷ to 0x1752 0x1753
    ∷ to 0x1772 0x1773
    ∷ to 0x17B4 0x17B5
    ∷ to 0x17B7 0x17BD
    ∷ to 0x17C6 0x17C6
    ∷ to 0x17C9 0x17D3
    ∷ to 0x17DD 0x17DD
    ∷ to 0x180B 0x180D
    ∷ to 0x18A9 0x18A9
    ∷ to 0x1920 0x1922
    ∷ to 0x1927 0x1928
    ∷ to 0x1932 0x1932
    ∷ to 0x1939 0x193B
    ∷ to 0x1A17 0x1A18
    ∷ to 0x1B00 0x1B03
    ∷ to 0x1B34 0x1B34
    ∷ to 0x1B36 0x1B3A
    ∷ to 0x1B3C 0x1B3C
    ∷ to 0x1B42 0x1B42
    ∷ to 0x1B6B 0x1B73
    ∷ to 0x1DC0 0x1DCA
    ∷ to 0x1DFE 0x1DFF
    ∷ to 0x200B 0x200F
    ∷ to 0x202A 0x202E
    ∷ to 0x2060 0x2063
    ∷ to 0x206A 0x206F
    ∷ to 0x20D0 0x20EF
    ∷ to 0x302A 0x302F
    ∷ to 0x3099 0x309A
    ∷ to 0xA806 0xA806
    ∷ to 0xA80B 0xA80B
    ∷ to 0xA825 0xA826
    ∷ to 0xFB1E 0xFB1E
    ∷ to 0xFE00 0xFE0F
    ∷ to 0xFE20 0xFE23
    ∷ to 0xFEFF 0xFEFF
    ∷ to 0xFFF9 0xFFFB
    ∷ to 0x10A01 0x10A03
    ∷ to 0x10A05 0x10A06
    ∷ to 0x10A0C 0x10A0F
    ∷ to 0x10A38 0x10A3A
    ∷ to 0x10A3F 0x10A3F
    ∷ to 0x1D167 0x1D169
    ∷ to 0x1D173 0x1D182
    ∷ to 0x1D185 0x1D18B
    ∷ to 0x1D1AA 0x1D1AD
    ∷ to 0x1D242 0x1D244
    ∷ to 0xE0001 0xE0001
    ∷ to 0xE0020 0xE007F
    ∷ to 0xE0100 0xE01EF
    ∷ []

-- `ambiguous` of `mk_wcwidth_cjk`: the East Asian ambiguous characters.
abbrev pub ambiguous : List Interval
ambiguous =
    to 0x00A1 0x00A1
    ∷ to 0x00A4 0x00A4
    ∷ to 0x00A7 0x00A8
    ∷ to 0x00AA 0x00AA
    ∷ to 0x00AE 0x00AE
    ∷ to 0x00B0 0x00B4
    ∷ to 0x00B6 0x00BA
    ∷ to 0x00BC 0x00BF
    ∷ to 0x00C6 0x00C6
    ∷ to 0x00D0 0x00D0
    ∷ to 0x00D7 0x00D8
    ∷ to 0x00DE 0x00E1
    ∷ to 0x00E6 0x00E6
    ∷ to 0x00E8 0x00EA
    ∷ to 0x00EC 0x00ED
    ∷ to 0x00F0 0x00F0
    ∷ to 0x00F2 0x00F3
    ∷ to 0x00F7 0x00FA
    ∷ to 0x00FC 0x00FC
    ∷ to 0x00FE 0x00FE
    ∷ to 0x0101 0x0101
    ∷ to 0x0111 0x0111
    ∷ to 0x0113 0x0113
    ∷ to 0x011B 0x011B
    ∷ to 0x0126 0x0127
    ∷ to 0x012B 0x012B
    ∷ to 0x0131 0x0133
    ∷ to 0x0138 0x0138
    ∷ to 0x013F 0x0142
    ∷ to 0x0144 0x0144
    ∷ to 0x0148 0x014B
    ∷ to 0x014D 0x014D
    ∷ to 0x0152 0x0153
    ∷ to 0x0166 0x0167
    ∷ to 0x016B 0x016B
    ∷ to 0x01CE 0x01CE
    ∷ to 0x01D0 0x01D0
    ∷ to 0x01D2 0x01D2
    ∷ to 0x01D4 0x01D4
    ∷ to 0x01D6 0x01D6
    ∷ to 0x01D8 0x01D8
    ∷ to 0x01DA 0x01DA
    ∷ to 0x01DC 0x01DC
    ∷ to 0x0251 0x0251
    ∷ to 0x0261 0x0261
    ∷ to 0x02C4 0x02C4
    ∷ to 0x02C7 0x02C7
    ∷ to 0x02C9 0x02CB
    ∷ to 0x02CD 0x02CD
    ∷ to 0x02D0 0x02D0
    ∷ to 0x02D8 0x02DB
    ∷ to 0x02DD 0x02DD
    ∷ to 0x02DF 0x02DF
    ∷ to 0x0391 0x03A1
    ∷ to 0x03A3 0x03A9
    ∷ to 0x03B1 0x03C1
    ∷ to 0x03C3 0x03C9
    ∷ to 0x0401 0x0401
    ∷ to 0x0410 0x044F
    ∷ to 0x0451 0x0451
    ∷ to 0x2010 0x2010
    ∷ to 0x2013 0x2016
    ∷ to 0x2018 0x2019
    ∷ to 0x201C 0x201D
    ∷ to 0x2020 0x2022
    ∷ to 0x2024 0x2027
    ∷ to 0x2030 0x2030
    ∷ to 0x2032 0x2033
    ∷ to 0x2035 0x2035
    ∷ to 0x203B 0x203B
    ∷ to 0x203E 0x203E
    ∷ to 0x2074 0x2074
    ∷ to 0x207F 0x207F
    ∷ to 0x2081 0x2084
    ∷ to 0x20AC 0x20AC
    ∷ to 0x2103 0x2103
    ∷ to 0x2105 0x2105
    ∷ to 0x2109 0x2109
    ∷ to 0x2113 0x2113
    ∷ to 0x2116 0x2116
    ∷ to 0x2121 0x2122
    ∷ to 0x2126 0x2126
    ∷ to 0x212B 0x212B
    ∷ to 0x2153 0x2154
    ∷ to 0x215B 0x215E
    ∷ to 0x2160 0x216B
    ∷ to 0x2170 0x2179
    ∷ to 0x2190 0x2199
    ∷ to 0x21B8 0x21B9
    ∷ to 0x21D2 0x21D2
    ∷ to 0x21D4 0x21D4
    ∷ to 0x21E7 0x21E7
    ∷ to 0x2200 0x2200
    ∷ to 0x2202 0x2203
    ∷ to 0x2207 0x2208
    ∷ to 0x220B 0x220B
    ∷ to 0x220F 0x220F
    ∷ to 0x2211 0x2211
    ∷ to 0x2215 0x2215
    ∷ to 0x221A 0x221A
    ∷ to 0x221D 0x2220
    ∷ to 0x2223 0x2223
    ∷ to 0x2225 0x2225
    ∷ to 0x2227 0x222C
    ∷ to 0x222E 0x222E
    ∷ to 0x2234 0x2237
    ∷ to 0x223C 0x223D
    ∷ to 0x2248 0x2248
    ∷ to 0x224C 0x224C
    ∷ to 0x2252 0x2252
    ∷ to 0x2260 0x2261
    ∷ to 0x2264 0x2267
    ∷ to 0x226A 0x226B
    ∷ to 0x226E 0x226F
    ∷ to 0x2282 0x2283
    ∷ to 0x2286 0x2287
    ∷ to 0x2295 0x2295
    ∷ to 0x2299 0x2299
    ∷ to 0x22A5 0x22A5
    ∷ to 0x22BF 0x22BF
    ∷ to 0x2312 0x2312
    ∷ to 0x2460 0x24E9
    ∷ to 0x24EB 0x254B
    ∷ to 0x2550 0x2573
    ∷ to 0x2580 0x258F
    ∷ to 0x2592 0x2595
    ∷ to 0x25A0 0x25A1
    ∷ to 0x25A3 0x25A9
    ∷ to 0x25B2 0x25B3
    ∷ to 0x25B6 0x25B7
    ∷ to 0x25BC 0x25BD
    ∷ to 0x25C0 0x25C1
    ∷ to 0x25C6 0x25C8
    ∷ to 0x25CB 0x25CB
    ∷ to 0x25CE 0x25D1
    ∷ to 0x25E2 0x25E5
    ∷ to 0x25EF 0x25EF
    ∷ to 0x2605 0x2606
    ∷ to 0x2609 0x2609
    ∷ to 0x260E 0x260F
    ∷ to 0x2614 0x2615
    ∷ to 0x261C 0x261C
    ∷ to 0x261E 0x261E
    ∷ to 0x2640 0x2640
    ∷ to 0x2642 0x2642
    ∷ to 0x2660 0x2661
    ∷ to 0x2663 0x2665
    ∷ to 0x2667 0x266A
    ∷ to 0x266C 0x266D
    ∷ to 0x266F 0x266F
    ∷ to 0x273D 0x273D
    ∷ to 0x2776 0x277F
    ∷ to 0xE000 0xF8FF
    ∷ to 0xFFFD 0xFFFD
    ∷ to 0xF0000 0xFFFFD
    ∷ to 0x100000 0x10FFFD
    ∷ []
