-- ===== src/Avahi.antt =====
-- QtZeroConf/avahi-common and QtZeroConf/avahi-core, as they are built into the program.
pub mod Utf8
pub mod Label
pub mod Domain
pub mod Normal
pub mod Hashmap
pub mod Record
pub mod Packet
pub mod StringList
