-- ===== src/Nodeops/Doctor/Laws.antt =====
-- internal/nodeops/doctor.go: what a report says of the transports.
pub mod Fixes
use uncut_core.Base.{
  Option-cases, ◌==◌, contains, ℕ, ◌≡◌, refl, sym, ◌∙◌, inl, inr, Bool, true, false, not, ◌&&◌,
  ◌||◌, Option, none, some, List, [], ◌∷◌, ◌++◌, arith,
}
use uncut_core.Text.{Text, codes, text_eq}
use uncut_core.Text.Decimal.{print, itoa}
use uncut_core.Config.{Settings}
use uncut_core.Config.Protocols.{hysteria2, amneziawg}
use uncut_core.Config.Ports.{protocol_port, awg_port_of}
use uncut_core.Nodeops.Doctor.{
  Check, check_transport, loopback_transports, hysteria2_transport, awg_transport, check_transports,
}

abbrev pub all_pass : List Check → Bool
all_pass [] = true
all_pass (c ∷ cs) = c.pass && all_pass cs

all_pass-append : (xs ys : List Check) → all_pass (xs ++ ys) ≡ (all_pass xs && all_pass ys)
all_pass-append [] ys = refl
all_pass-append (x ∷ xs) ys = ground (arith, all_pass-append xs ys)

abbrev no_error : Option Text → Bool
no_error none = true
no_error (some e) = false

module _ (dial : Text → Option Text) (listens : Text → Bool) where
  -- Whether the listener of an enabled protocol answers.
  abbrev pub accepts : Text → Bool
  accepts port = no_error (dial port)

  abbrev tcp_answers : Option ℕ → Bool
  tcp_answers none = true
  tcp_answers (some port) = accepts (print port)

  abbrev pub answers : Settings → Text → Bool
  answers s p =
      tcp_answers (protocol_port p)
      && (not (p == hysteria2) || listens (codes "443"))
      && (not (p == amneziawg) || listens (itoa (awg_port_of s)))

  abbrev pub all_answer : Settings → List Text → Bool
  all_answer s [] = true
  all_answer s (p ∷ ps) = answers s p && all_answer s ps

  all_tcp : List Text → Bool
  all_tcp [] = true
  all_tcp (p ∷ ps) = tcp_answers (protocol_port p) && all_tcp ps

  check_transport-pass :
      (p : Text) (port : Option ℕ)
      → all_pass (check_transport dial listens p port) ≡ tcp_answers port
  check_transport-pass p none = refl
  check_transport-pass p (some port) = elim (Option-cases (dial (print port))) [
    | inl e ↦ rw e refl
    | inr (why, e) ↦ rw e refl
  ]

  loopback-pass : (ps : List Text) → all_pass (loopback_transports dial listens ps) ≡ all_tcp ps
  unfolding loopback_transports all_tcp
  loopback-pass [] = refl
  loopback-pass (p ∷ ps) =
      all_pass-append (check_transport dial listens p (protocol_port p))
        (loopback_transports dial listens ps)
      ∙ rw (check_transport-pass p (protocol_port p), loopback-pass ps) refl

  hysteria2-pass :
      (ps : List Text)
      → all_pass (hysteria2_transport dial listens ps)
        ≡ (not (contains ps hysteria2) || listens (codes "443"))
  unfolding hysteria2_transport
  hysteria2-pass ps = ground arith

  awg-pass :
      (ps : List Text) (port : Text)
      → all_pass (awg_transport dial listens ps port)
        ≡ (not (contains ps amneziawg) || listens port)
  unfolding awg_transport
  awg-pass ps port = ground arith

  all_answer-parts :
      (s : Settings) (ps : List Text)
      → all_answer s ps ≡ (
          all_tcp ps
          && ((not (contains ps hysteria2) || listens (codes "443"))
              && (not (contains ps amneziawg) || listens (itoa (awg_port_of s)))))
  unfolding all_tcp
  all_answer-parts s [] = refl
  all_answer-parts s (p ∷ ps) = ground (arith, all_answer-parts s ps)

  -- The checks of the transports all pass exactly if the listener of every enabled protocol answers:
  -- its loopback port, UDP 443 for hysteria2, the AmneziaWG port for amneziawg.
  pub check_transports_lem :
      (s : Settings) → all_pass (check_transports dial listens s) ≡ all_answer s s.protocols
  unfolding check_transports
  check_transports_lem s =
      let port = itoa (awg_port_of s) in
      all_pass-append (loopback_transports dial listens s.protocols) (
        hysteria2_transport dial listens s.protocols ++ awg_transport dial listens s.protocols port)
      ∙ (rw
          (
            all_pass-append (hysteria2_transport dial listens s.protocols)
                (awg_transport dial listens s.protocols port),
            loopback-pass s.protocols,
            hysteria2-pass s.protocols,
            awg-pass s.protocols port,
          )
          (sym (all_answer-parts s s.protocols)))
