-- ===== src/App/NoDevice.antt =====
-- The test program where no device can be opened.
use qt_gretio.Prelude.{List}
use qt_gretio.Qt.{Qt}
use qt_gretio.J2534
