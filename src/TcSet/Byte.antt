-- ===== src/TcSet/Byte.antt =====
-- The border inside the byte where two addresses of src/tc_set.c differ first.
use olsr.Prelude.{ℕ, ◌/◌, ◌≤◌, ◌<◌, ◌≡◌, ◌≢◌, true, false, ◌==◌, if_cases, arith}
use olsr.TcSet.Border.{border_byte, first_bit}

-- In a byte: the bit of a difference, set over cleared bits, lies between the two bytes.
abbrev pub Splits : ℕ → ℕ → ℕ → Type 0
Splits l h bit =
    (bit < 8)
    × (border_byte bit l ≡ border_byte bit h)
    × (l < border_byte bit l)
    × (border_byte bit h ≤ h)

Splits-0 : (l h : ℕ) → l < h → l / 1 ≢ h / 1 → l / 2 ≡ h / 2 → Splits l h 0
unfolding border_byte
Splits-0 l h less differ same = ground arith

Splits-1 : (l h : ℕ) → l < h → l / 2 ≢ h / 2 → l / 4 ≡ h / 4 → Splits l h 1
unfolding border_byte
Splits-1 l h less differ same = ground arith

Splits-2 : (l h : ℕ) → l < h → l / 4 ≢ h / 4 → l / 8 ≡ h / 8 → Splits l h 2
unfolding border_byte
Splits-2 l h less differ same = ground arith

Splits-3 : (l h : ℕ) → l < h → l / 8 ≢ h / 8 → l / 16 ≡ h / 16 → Splits l h 3
unfolding border_byte
Splits-3 l h less differ same = ground arith

Splits-4 : (l h : ℕ) → l < h → l / 16 ≢ h / 16 → l / 32 ≡ h / 32 → Splits l h 4
unfolding border_byte
Splits-4 l h less differ same = ground arith

Splits-5 : (l h : ℕ) → l < h → l / 32 ≢ h / 32 → l / 64 ≡ h / 64 → Splits l h 5
unfolding border_byte
Splits-5 l h less differ same = ground arith

Splits-6 : (l h : ℕ) → l < h → l / 64 ≢ h / 64 → l / 128 ≡ h / 128 → Splits l h 6
unfolding border_byte
Splits-6 l h less differ same = ground arith

Splits-7 : (l h : ℕ) → l < h → l / 128 ≢ h / 128 → l / 256 ≡ h / 256 → Splits l h 7
unfolding border_byte
Splits-7 l h less differ same = ground arith

pub eq_of : (a b : ℕ) → (a == b) ≡ true → a ≡ b
eq_of a b h = ground arith

ne : (a b : ℕ) → (a == b) ≡ false → a ≢ b
ne a b h = ground arith

pub first_bit-Splits : (l h : ℕ) → l < h → h < 256 → Splits l h (first_bit 8 0 l h)
unfolding first_bit
first_bit-Splits l h less byte =
    if_cases (Splits l h) (l / 2 == h / 2) 0 (first_bit 7 1 l h)
      (λ e. Splits-0 l h less (λ x. absurd (omega arith)) (eq_of (l / 2) (h / 2) e))
      (λ n1.
        if_cases (Splits l h) (l / 4 == h / 4) 1 (first_bit 6 2 l h)
          (λ e. Splits-1 l h less (ne (l / 2) (h / 2) n1) (eq_of (l / 4) (h / 4) e))
          (λ n2.
            if_cases (Splits l h) (l / 8 == h / 8) 2 (first_bit 5 3 l h)
              (λ e. Splits-2 l h less (ne (l / 4) (h / 4) n2) (eq_of (l / 8) (h / 8) e))
              (λ n3.
                if_cases (Splits l h) (l / 16 == h / 16) 3 (first_bit 4 4 l h)
                  (λ e. Splits-3 l h less (ne (l / 8) (h / 8) n3) (eq_of (l / 16) (h / 16) e))
                  (λ n4.
                    if_cases (Splits l h) (l / 32 == h / 32) 4 (first_bit 3 5 l h)
                      (λ e. Splits-4 l h less (ne (l / 16) (h / 16) n4) (eq_of (l / 32) (h / 32) e))
                      (λ n5.
                        if_cases (Splits l h) (l / 64 == h / 64) 5 (first_bit 2 6 l h)
                          (λ e.
                            Splits-5 l h less (ne (l / 32) (h / 32) n5) (eq_of (l / 64) (h / 64) e))
                          (λ n6.
                            if_cases (Splits l h) (l / 128 == h / 128) 6 (first_bit 1 7 l h)
                              (λ e.
                                Splits-6 l h less (ne (l / 64) (h / 64) n6)
                                  (eq_of (l / 128) (h / 128) e))
                              (λ n7.
                                if_cases (Splits l h) (l / 256 == h / 256) 7 8
                                  (λ e.
                                    Splits-7 l h less (ne (l / 128) (h / 128) n7)
                                      (eq_of (l / 256) (h / 256) e))
                                  (λ n8. absurd (omega (arith, ne (l / 256) (h / 256) n8))))))))))
