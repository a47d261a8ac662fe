-- ===== src/Cpu/Address.antt =====
-- crates/riscv-cpu/src/cpu.rs: the addresses of the registers, and the bits of MIP.
use yove.Base.{ℕ}

abbrev pub csr_ustatus_address : ℕ
csr_ustatus_address = 0x000

abbrev pub csr_fflags_address : ℕ
csr_fflags_address = 0x001

abbrev pub csr_frm_address : ℕ
csr_frm_address = 0x002

abbrev pub csr_fcsr_address : ℕ
csr_fcsr_address = 0x003

abbrev pub csr_uie_address : ℕ
csr_uie_address = 0x004

abbrev pub csr_utvec_address : ℕ
csr_utvec_address = 0x005

abbrev pub csr_uepc_address : ℕ
csr_uepc_address = 0x041

abbrev pub csr_ucause_address : ℕ
csr_ucause_address = 0x042

abbrev pub csr_utval_address : ℕ
csr_utval_address = 0x043

abbrev pub csr_sstatus_address : ℕ
csr_sstatus_address = 0x100

abbrev pub csr_sedeleg_address : ℕ
csr_sedeleg_address = 0x102

abbrev pub csr_sideleg_address : ℕ
csr_sideleg_address = 0x103

abbrev pub csr_sie_address : ℕ
csr_sie_address = 0x104

abbrev pub csr_stvec_address : ℕ
csr_stvec_address = 0x105

abbrev pub csr_sepc_address : ℕ
csr_sepc_address = 0x141

abbrev pub csr_scause_address : ℕ
csr_scause_address = 0x142

abbrev pub csr_stval_address : ℕ
csr_stval_address = 0x143

abbrev pub csr_sip_address : ℕ
csr_sip_address = 0x144

abbrev pub csr_satp_address : ℕ
csr_satp_address = 0x180

abbrev pub csr_mstatus_address : ℕ
csr_mstatus_address = 0x300

abbrev pub csr_medeleg_address : ℕ
csr_medeleg_address = 0x302

abbrev pub csr_mideleg_address : ℕ
csr_mideleg_address = 0x303

abbrev pub csr_mie_address : ℕ
csr_mie_address = 0x304

abbrev pub csr_mtvec_address : ℕ
csr_mtvec_address = 0x305

abbrev pub csr_mepc_address : ℕ
csr_mepc_address = 0x341

abbrev pub csr_mcause_address : ℕ
csr_mcause_address = 0x342

abbrev pub csr_mtval_address : ℕ
csr_mtval_address = 0x343

abbrev pub csr_mip_address : ℕ
csr_mip_address = 0x344

abbrev pub csr_cycle_address : ℕ
csr_cycle_address = 0xc00

abbrev pub csr_mhartid_address : ℕ
csr_mhartid_address = 0xf14

abbrev pub mip_meip : ℕ
mip_meip = 0x800

abbrev pub mip_mtip : ℕ
mip_mtip = 0x080

abbrev pub mip_msip : ℕ
mip_msip = 0x008

abbrev pub mip_seip : ℕ
mip_seip = 0x200

abbrev pub mip_stip : ℕ
mip_stip = 0x020

abbrev pub mip_ssip : ℕ
mip_ssip = 0x002
