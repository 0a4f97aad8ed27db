-- ===== src/Ftp/Address.antt =====
-- Host and port in the commands PORT and EPRT: parsePORT of ftp/server/session.go, FormatPORT and
-- FormatEPRT of ftp/ftp/parse.go. An int is a number of 64 bits and wraps around.
use go_protocols.Common.{ℕ, ◌+◌, ◌*◌, ◌/◌, ◌%◌, ◌^◌, List, [], ◌∷◌, ◌++◌, Option, none, some, Bytes}
use go_protocols.Common.Decimal.{ℤ, decimal, parse_int, to_word, of_word}
use go_protocols.Common.Text.{split}
unfoldable pub use go_protocols.Common.Text.{trim_space}

-- p1*256 + p2
unfoldable pub port_number : ℤ → ℤ → ℤ
unfolding to_word of_word
port_number p q = of_word ((to_word p * 256 + to_word q) % 2 ^ 64)

host_text : Bytes → Bytes → Bytes → Bytes → Bytes
host_text a b c d = a ++ (b'.' ∷ (b ++ (b'.' ∷ (c ++ (b'.' ∷ d)))))

both : Bytes → Option ℤ → Option ℤ → Option (Bytes × ℤ)
unfolding port_number
both host (some p) (some q) = some (host, port_number p q)
both host _ _ = none

six_parts : List Bytes → Option (Bytes × ℤ)
unfolding trim_space host_text both
six_parts (a ∷ b ∷ c ∷ d ∷ e ∷ f ∷ []) =
    both (host_text a b c d) (parse_int (trim_space e)) (parse_int (trim_space f))
six_parts _ = none

-- parsePORT
unfoldable pub parse_port : Bytes → Option (Bytes × ℤ)
unfolding six_parts
parse_port arg = six_parts (split b',' arg)

-- FormatPORT, for a host of four decimal numbers and a port that is not negative.
unfoldable pub format_port : ℕ → ℕ → ℕ → ℕ → ℕ → Bytes
format_port a b c d port =
    decimal a
    ++ (b','
        ∷ (decimal b
            ++ (b','
                ∷ (decimal c
                    ++ (b','
                        ∷ (decimal d
                            ++ (b','
                                ∷ (decimal (port / 256) ++ (b',' ∷ decimal (port % 256))))))))))

-- FormatEPRT, for a port that is not negative.
unfoldable pub format_eprt : Bytes → Bytes → ℕ → Bytes
format_eprt proto host port = proto ++ (b'|' ∷ (host ++ (b'|' ∷ (decimal port ++ b'|' ∷ []))))
