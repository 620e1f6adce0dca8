-- ===== src/Socket/Ssl.antt =====
-- Which certificate errors are ignored.
use qt_gretio.Prelude.{◌≡◌, ◌⊎◌, List, [], ◌∷◌}
use qt_gretio.Qt.{Qt}
use qt_gretio.Socket.{
  Socket, SslError, host_name_mismatch, unable_to_get_local_issuer_certificate,
  unable_to_verify_first_certificate,
}

-- The errors of a self-signed certificate.
abbrev pub IsSelfSigned : SslError → Type 0
IsSelfSigned e =
    (e ≡ host_name_mismatch)
    ⊎ (e ≡ unable_to_get_local_issuer_certificate)
    ⊎ (e ≡ unable_to_verify_first_certificate)

abbrev pub AllSelfSigned : List SslError → Type 0
AllSelfSigned [] = Unit {0}
AllSelfSigned (e ∷ es) = IsSelfSigned e × AllSelfSigned es
