-- ===== src/Examples/Themes.antt =====
-- What a theme sees.
use fomalhaut.Common.{Option, err, ◌≡◌, refl}
use fomalhaut.Session.Texts.{chars}
use fomalhaut.Web.Protocol.{new_identity_summary, ProtocolValueError}

refuses_avatar :
    new_identity_summary (chars "al") (chars "Al") (Option.some (chars "http://x"))
    ≡ err ProtocolValueError.invalid_character
unfolding new_identity_summary
refuses_avatar = refl
