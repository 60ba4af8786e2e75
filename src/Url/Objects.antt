-- ===== src/Url/Objects.antt =====
-- Copying, moving and reading a URL of src/net/url.cpp. `left` is what a string holds from which another
-- has been moved. The assignments end without a return.
use taurus.Shared.{Text, Outcome}
use taurus.Shared.Int.{ℤ}
use taurus.Kernel.{FallOff, without_return}
use taurus.Url.{UrlImpl}

-- URL(const URL &)
unfoldable copy : UrlImpl → UrlImpl
copy other = record {
  string = other.string;
  schema = other.schema;
  host = other.host;
  port = other.port;
}

-- URL(URL &&): the new URL and the old one
unfoldable move : Text → UrlImpl → UrlImpl × UrlImpl
move left other = (copy other, record other { string = left; schema = left; host = left })

-- The assignments
unfoldable assign : FallOff → UrlImpl → UrlImpl → Outcome UrlImpl
assign falls self other = without_return falls (copy other)

unfoldable move_assign : FallOff → Text → UrlImpl → UrlImpl → Outcome (UrlImpl × UrlImpl)
move_assign falls left self other = without_return falls (move left other)

-- str(), schema(), host() and port()
unfoldable str : UrlImpl → Text
str u = u.string

unfoldable schema : UrlImpl → Text
schema u = u.schema

unfoldable host : UrlImpl → Text
host u = u.host

unfoldable port : UrlImpl → ℤ
port u = u.port
