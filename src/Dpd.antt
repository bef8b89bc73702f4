-- ===== src/Dpd.antt =====
-- src/decDPD.h: densely packed decimal. A declet is ten bits that stand for three digits. The modules
-- BinToDpd, DpdToBin, DpdToBcd, DpdToBinK and DpdToBinM each hold one table, as a list.
pub mod BinToDpd
pub mod DpdToBin
pub mod DpdToBcd
pub mod DpdToBinK
pub mod DpdToBinM
pub mod Spec
pub mod Laws
